-- ===== src/LruMap.antt =====
-- src/common/LruMap.h: a map of bounded size that forgets the entry used longest ago.
--
-- `std::list` is a list of nodes, each with a number that stands for its address; an iterator is that
-- number, and erasing through an iterator whose node is gone is a fault. The hash table from keys to
-- iterators is a function. Every operation runs under the lock, so it is one step.
pub mod Nodes
pub mod Without
pub mod Invariant
pub mod Entries
pub mod Recency
pub mod Lookup
use libhdfs.Prelude.{
  ℕ, zero, suc, ◌+◌, ◌-◌, ◌<◌, ◌≡◌, ltb, ◌==◌, if◌then◌else◌, Bool, true, false, List, [], ◌∷◌,
  Option, none, some, Result, ok, fault, ◌>>=◌,
}

pub record Node (K V : Type 0) : Type 0 where
  pub address : ℕ
  pub key : K
  pub value : V

pub record LruMap (K V : Type 0) : Type 0 where
  pub count : ℕ
  pub max_size : ℕ
  pub list : List (Node K V)
  pub index : K → Option ℕ
  pub next_address : ℕ

-- The `==` of the keys, which the hash table uses.
pub record KeyEquality (K : Type 0) : Type 0 where
  pub same : K → K → Bool
  pub same_refl : (k : K) → same k k ≡ true
  pub same_sound : (a b : K) → same a b ≡ true → a ≡ b

-- `map[key] = it` and `map.erase(key)`.
unfoldable pub assign : {K : Type 0} → KeyEquality K → K → Option ℕ → (K → Option ℕ) → K → Option ℕ
assign eq key it index k = if eq.same key k then it else index k

module _ {K V : Type 0} where
  -- `list.erase(it)`
  unfoldable pub erase_node : ℕ → List (Node K V) → Result (List (Node K V))
  erase_node it [] = fault
  erase_node it (n ∷ ns) =
      let rest = erase_node it ns >>= λ ns'. ok (n ∷ ns') in if it == n.address then ok ns else rest

  -- `list.back()`
  unfoldable pub last_node : List (Node K V) → Result (Node K V)
  last_node [] = fault
  last_node (n ∷ []) = ok n
  last_node (n ∷ m ∷ ns) = last_node (m ∷ ns)

  -- `list.pop_back()`
  unfoldable pub pop_back : List (Node K V) → List (Node K V)
  pop_back [] = []
  pop_back (n ∷ []) = []
  pop_back (n ∷ m ∷ ns) = n ∷ pop_back (m ∷ ns)

  -- `it->second->second`
  unfoldable pub value_at : ℕ → List (Node K V) → Result V
  value_at it [] = fault
  value_at it (n ∷ ns) = let rest = value_at it ns in if it == n.address then ok n.value else rest

module _ {K V : Type 0} (eq : KeyEquality K) where
  -- `map.erase(list.back().first); list.pop_back(); --count;`
  unfoldable pub forget_last : LruMap K V → Result (LruMap K V)
  forget_last m = last_node m.list >>= λ n. ok (record m {
    count = m.count - 1;
    list = pop_back m.list;
    index = assign eq n.key none m.index;
  })

  -- The loop of setMaxSize, for the rounds from `count` down to `s`.
  unfoldable pub forget : ℕ → LruMap K V → Result (LruMap K V)
  forget zero m = ok m
  forget (suc rounds) m = forget_last m >>= λ m'. forget rounds m'

  unfoldable pub set_max_size : ℕ → LruMap K V → Result (LruMap K V)
  set_max_size s m = forget (m.count - s) (record m { max_size = s })

  -- `list.push_front(std::make_pair(key, value)); map[key] = list.begin();`
  unfoldable pub push_front : K → V → LruMap K V → LruMap K V
  push_front key value m = record m {
    list = record { address = m.next_address; key = key; value = value } ∷ m.list;
    index = assign eq key (some m.next_address) m.index;
    next_address = m.next_address + 1;
  }

  unfoldable pub limit : LruMap K V → Result (LruMap K V)
  limit m = if ltb m.max_size m.count then forget_last m else ok m

  unfoldable pub insert : K → V → LruMap K V → Result (LruMap K V)
  insert key value m =
      elim (m.index key) [
        | some it ↦
            erase_node it m.list >>= λ list. ok (record m { count = m.count - 1; list = list })
        | none ↦ ok m
      ]
      >>= λ m'. let m'' = push_front key value m' in limit (record m'' { count = m''.count + 1 })

  unfoldable pub erase : K → LruMap K V → Result (LruMap K V)
  erase key m = elim (m.index key) [
    | some it ↦ erase_node it m.list >>= λ list.
        ok (record m { count = m.count - 1; list = list; index = assign eq key none m.index })
    | none ↦ ok m
  ]

  -- findAndEraseInternal; `none` is a false result.
  unfoldable pub find_and_erase_internal : K → Bool → LruMap K V → Result (Option V × LruMap K V)
  find_and_erase_internal key erase m = elim (m.index key) [
    | some it ↦ value_at it m.list >>= λ value. erase_node it m.list >>= λ list. ok (
      some value,
      if erase
          then record m { count = m.count - 1; list = list; index = assign eq key none m.index }
          else push_front key value (record m { list = list }),
    )
    | none ↦ ok (none, m)
  ]

  unfoldable pub find : K → LruMap K V → Result (Option V × LruMap K V)
  find key m = find_and_erase_internal key false m

  unfoldable pub find_and_erase : K → LruMap K V → Result (Option V × LruMap K V)
  find_and_erase key m = find_and_erase_internal key true m
