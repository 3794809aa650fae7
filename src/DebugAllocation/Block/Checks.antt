-- ===== src/DebugAllocation/Block/Checks.antt =====
-- What the checks of the debug allocator say of the words of a block.
use gperftools.Base.{
  ℕ, ◌+◌, ◌^◌, ◌<◌, ◌≡◌, ◌≢◌, refl, ap, sym, ◌∙◌, inl, bit_and, bit_or, true, false, Option, some,
  ◌==◌, arith, eq→==, ne→==_false,
}
use gperftools.AddressMap.{AddressMap, insert}
use gperftools.DebugAllocation.{Memory}
use gperftools.DebugAllocation.Bytes.{load, store, load-store_other}
use gperftools.DebugAllocation.Block.{
  AllocType, malloc_type, new_type, array_new_type, type_value, int_to_size, deallocated_type_bit,
  magic_deleted_size, magic_malloc, data_offset, block_size, already_deallocated, word_after, fine,
  reported, data_addr, size1, magic1, alloc_type, size2_addr, magic2_addr, is_mmapped,
  is_valid_magic_value, map_of, write_header, write_magic2, write_trailer, initialize, check_words,
}
use gperftools.DebugAllocation.Block.Words.{
  IsLive, header, trailer, formatted, header-size, header-magic, formatted-IsLive,
}

pub is_mmapped-malloc :
    (mem : Memory) (b : ℕ) → magic1 mem b ≡ magic_malloc → is_mmapped mem b ≡ false
unfolding is_mmapped
is_mmapped-malloc mem b e = rw e refl

valid-malloc : (value : ℕ) → value ≡ magic_malloc → is_valid_magic_value value ≡ true
unfolding is_valid_magic_value
valid-malloc value e = rw e refl

module _ (mem : Memory) (b size : ℕ) (type : AllocType)
    (fits : b + size + block_size < 2 ^ 64) where
  pub size2_addr_lem : size1 mem b ≡ size → size2_addr mem b ≡ b + data_offset + size
  size2_addr_lem e = rw e (omega arith)

  magic2_addr_lem : size1 mem b ≡ size → magic2_addr mem b ≡ b + data_offset + size + 8
  magic2_addr_lem e = rw (size2_addr_lem e) (omega arith)

module _ (mem : Memory) (b size : ℕ) (type : AllocType) (fits : b + size + block_size < 2 ^ 64)
    (magic : magic1 mem b ≡ magic_malloc) where
  trailer_lem : write_trailer (write_header mem b size type) b size ≡ trailer mem b size type
  unfolding trailer header write_trailer store
  trailer_lem =
      let h = write_header mem b size type in
      let m1 : magic1 h b ≡ magic_malloc =
        (unfold header in header-magic mem b size type) ∙ magic in
      let s1 : size1 h b ≡ size = unfold header in header-size mem b size type (omega arith) in
      let first : write_magic2 h b ≡ store h (b + data_offset + size + 8) magic_malloc =
        unfold write_magic2 in rw (magic2_addr_lem h b size type fits s1, m1) refl in
      let s2 : size1 (store h (b + data_offset + size + 8) magic_malloc) b ≡ size =
        load-store_other h (b + data_offset + size + 8) magic_malloc b (inl (omega arith)) ∙ s1 in
      rw (write_trailer, is_mmapped-malloc h b m1, first)
        (ap (λ p. store (store h (b + data_offset + size + 8) magic_malloc) p size)
          (size2_addr_lem _ b size type fits s2))

  pub initialize_lem :
      (map : Option (AddressMap ℕ))
      → initialize (record { mem = mem; alloc_map = map }) b size type
        ≡ fine (record {
          mem = formatted mem b size type;
          alloc_map = some (insert (map_of map) (data_addr b) (type_value type));
        })
  unfolding initialize formatted
  initialize_lem map =
      let low : size < 2 ^ 64 = omega arith in
      let live = formatted-IsLive mem b size type low magic in
      let at = size2_addr_lem (formatted mem b size type) b size type fits live.size_word in
      let at' = magic2_addr_lem (formatted mem b size type) b size type fits live.size_word in
      let e1 : (size1 (formatted mem b size type) b
            == load (formatted mem b size type) (size2_addr (formatted mem b size type) b))
          ≡ true =
        eq→== _ _
          (live.size_word ∙ sym (ap (load (formatted mem b size type)) at ∙ live.size_after)) in
      let e2 : (magic1 (formatted mem b size type) b
            == load (formatted mem b size type) (magic2_addr (formatted mem b size type) b))
          ≡ true =
        eq→== _ _
          (live.magic_word ∙ sym (ap (load (formatted mem b size type)) at' ∙ live.magic_after)) in
      let m = is_mmapped-malloc (formatted mem b size type) b live.magic_word in
      rw (valid-malloc _ magic, trailer_lem, m, e1, e2) refl

allocated : (type : AllocType) → (bit_and (type_value type) deallocated_type_bit == 0) ≡ true
unfolding type_value
allocated malloc_type = refl
allocated new_type = refl
allocated array_new_type = refl

freed :
    (type : AllocType)
    → (bit_and (bit_or (type_value type) deallocated_type_bit) deallocated_type_bit == 0) ≡ false
unfolding type_value
freed malloc_type = refl
freed new_type = refl
freed array_new_type = refl

pub not-deleted : (type : AllocType) → (int_to_size (type_value type) == magic_deleted_size) ≡ false
unfolding type_value int_to_size
not-deleted malloc_type = refl
not-deleted new_type = refl
not-deleted array_new_type = refl

module _ (mem : Memory) (b size : ℕ) (type : AllocType)
    (fits : b + size + block_size < 2 ^ 64) where
  -- A live block passes the checks.
  pub check_words-live :
      IsLive mem b size type → check_words mem b (type_value type) (type_value type) ≡ fine tt
  unfolding check_words
  check_words-live live =
      let at = size2_addr_lem mem b size type fits live.size_word in
      let at' = magic2_addr_lem mem b size type fits live.size_word in
      let e1 : (load mem (size2_addr mem b) == size1 mem b) ≡ true =
        eq→== _ _ (ap (load mem) at ∙ live.size_after ∙ sym live.size_word) in
      let e2 = valid-malloc _ (ap (load mem) at' ∙ live.magic_after) in
      let t = eq→== _ _ live.type_word in
      let d : (alloc_type mem b == magic_deleted_size) ≡ false =
        rw live.type_word (not-deleted type) in
      rw
        (
          allocated type,
          d,
          valid-malloc _ live.magic_word,
          is_mmapped-malloc mem b live.magic_word,
          e1,
          e2,
          t,
        )
        refl

  -- Another size after the object is found.
  pub check_words-after :
      (t : ℕ)
      → size1 mem b ≡ size
      → magic1 mem b ≡ magic_malloc
      → alloc_type mem b ≡ int_to_size (type_value type)
      → load mem (b + data_offset + size) ≢ size
      → check_words mem b t (type_value type) ≡ reported word_after
  unfolding check_words
  check_words-after t s m a ne =
      let at = size2_addr_lem mem b size type fits s in
      let e1 : (load mem (size2_addr mem b) == size1 mem b) ≡ false =
        ne→==_false _ _ (λ e. ne (ap (load mem) (sym at) ∙ e ∙ s)) in
      let d : (alloc_type mem b == magic_deleted_size) ≡ false = rw a (not-deleted type) in
      rw (allocated type, d, valid-malloc _ m, is_mmapped-malloc mem b m, e1) refl

-- The map says that a block was freed.
pub check_words-freed :
    (mem : Memory) (b t : ℕ) (type : AllocType)
    → check_words mem b t (bit_or (type_value type) deallocated_type_bit)
      ≡ reported already_deallocated
unfolding check_words
check_words-freed mem b t type = rw (freed type) refl
