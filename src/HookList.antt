-- ===== src/HookList.antt =====
-- `HookList` of src/malloc_hook-inl.h and src/malloc_hook.cc: the callbacks of one kind in eight
-- slots, of which the last is for the deprecated single hook. A hook is a number, 0 for none.
pub mod Ended
pub mod Change
use gperftools.Base.{
  ℕ, zero, suc, ◌+◌, ◌-◌, ◌≤◌, Bool, true, false, not, ◌&&◌, List, [], ◌∷◌, leb, ltb, ◌==◌,
  if◌then◌else◌, update,
}

-- `kHookListCapacity`, `kHookListMaxValues`, `kHookListSingularIdx`
abbrev pub capacity : ℕ
capacity = 8

abbrev pub max_values : ℕ
max_values = 7

abbrev pub singular_idx : ℕ
singular_idx = 7

pub record HookList : Type 0 where
  pub priv_end : ℕ
  pub priv_data : ℕ → ℕ

abbrev pub no_hooks : HookList
no_hooks = record { priv_end = 0; priv_data = λ i. 0 }

-- The loop of `Add`: the first of `n` slots from `i` on that is 0, or the end.
unfoldable pub free_index : ℕ → ℕ → (ℕ → ℕ) → ℕ
free_index zero i a = i
free_index (suc n) i a = if a i == 0 then i else free_index n (i + 1) a

-- `Add`
unfoldable pub add : HookList → ℕ → Bool × HookList
add h v =
    let index = free_index max_values 0 h.priv_data in
    if v == 0 then (false, h) else if index == max_values then (false, h) else (
      true,
      record {
        priv_end = if leb h.priv_end index then index + 1 else h.priv_end;
        priv_data = update h.priv_data index v;
      },
    )

-- The loop of `FixupPrivEndLocked`
unfoldable pub fixup_end : ℕ → (ℕ → ℕ) → ℕ
fixup_end zero a = 0
fixup_end (suc e) a = if a e == 0 then fixup_end e a else suc e

-- `FixupPrivEndLocked`
abbrev pub fixup : HookList → HookList
fixup h = record h { priv_end = fixup_end h.priv_end h.priv_data }

-- The loop of `Remove`: the first of `n` slots from `i` on that has the hook, or the end.
unfoldable pub index_of : ℕ → ℕ → ℕ → (ℕ → ℕ) → ℕ
index_of zero i v a = i
index_of (suc n) i v a = if v == a i then i else index_of n (i + 1) v a

-- `Remove`
unfoldable pub remove : HookList → ℕ → Bool × HookList
remove h v =
    let index = index_of h.priv_end 0 v h.priv_data in
    if v == 0
    then (false, h)
    else if index == h.priv_end
    then (false, h)
    else (true, fixup (record h { priv_data = update h.priv_data index 0 }))

-- The loop of `Traverse` over `rounds` slots from `i` on, with room for `n` hooks.
unfoldable pub traverse_from : ℕ → ℕ → ℕ → (ℕ → ℕ) → List ℕ
traverse_from zero i n a = []
traverse_from (suc rounds) i zero a = []
traverse_from (suc rounds) i (suc n) a =
    if a i == 0
    then traverse_from rounds (i + 1) (suc n) a
    else a i ∷ traverse_from rounds (i + 1) n a

-- `Traverse`: what it stores, as many hooks as it returns.
unfoldable pub traverse : HookList → ℕ → List ℕ
traverse h n = traverse_from h.priv_end 0 n h.priv_data

-- `GetSingular`
abbrev pub get_singular : HookList → ℕ
get_singular h = h.priv_data singular_idx

-- `ExchangeSingular`
unfoldable pub exchange_singular : HookList → ℕ → ℕ × HookList
exchange_singular h v =
    let h' = record h { priv_data = update h.priv_data singular_idx v } in
    (get_singular h, if v == 0 then fixup h' else record h' { priv_end = singular_idx + 1 })

-- A call that changes the list.
pub data Call : Type 0 where
  adds : ℕ → Call
  removes : ℕ → Call
  exchanges : ℕ → Call

abbrev pub step : HookList → Call → HookList
step h (adds v) = (add h v).1
step h (removes v) = (remove h v).1
step h (exchanges v) = (exchange_singular h v).1

-- The list after the calls, the first of them first.
abbrev pub run : HookList → List Call → HookList
run h [] = h
run h (c ∷ cs) = run (step h c) cs
