-- ===== src/Dict.antt =====
-- Python's `dict` and `OrderedDict`: entries in order of insertion, one for each key.
use zerocool.Prelude.{
  ◌+◌, ◌≡◌, refl, Bool, true, false, ◌||◌, Option, none, some, List, [], ◌∷◌, ◌++◌, arith, Eq, ◌==◌,
  if◌then◌else◌, length, is_some, Result, ok, raise, key_error,
}

abbrev pub Dict {ℓ κ} : Type ℓ → Type κ → Type (ℓ ⊔ κ)
Dict K V = List (K × V)

-- `d.popitem(last=False)`: the oldest entry, and the rest
unfoldable pub pop_first {ℓ κ} : {K : Type ℓ} {V : Type κ} → Dict K V → Result ((K × V) × Dict K V)
pop_first [] = raise key_error
pop_first (entry ∷ d) = ok (entry, d)

module _ {ℓ κ} {K : Type ℓ} {V : Type κ} ⦃e : Eq K⦄ where
  -- `d.get(k)`
  unfoldable pub get : K → Dict K V → Option V
  get k [] = none
  get k ((j, v) ∷ d) = if j == k then some v else get k d

  -- `d[k] = v`: in place where the key stands, at the end where it is new
  unfoldable pub put : K → V → Dict K V → Dict K V
  put k v [] = (k, v) ∷ []
  put k v ((j, w) ∷ d) = if j == k then (k, v) ∷ d else (j, w) ∷ put k v d

  -- `d.pop(k, None)`
  unfoldable pub remove : K → Dict K V → Dict K V
  remove k [] = []
  remove k ((j, v) ∷ d) = let rest = remove k d in if j == k then rest else (j, v) ∷ rest

  -- `k in d`
  unfoldable pub contains : K → Dict K V → Bool
  contains k [] = false
  contains k ((j, v) ∷ d) = j == k || contains k d

  -- `del d[k]`
  unfoldable pub delete : K → Dict K V → Result (Dict K V)
  unfolding contains remove
  delete k d = if contains k d then ok (remove k d) else raise key_error

  -- `d[k]`
  unfoldable pub lookup_item : K → Dict K V → Result V
  lookup_item k d = elim (get k d) [ none ↦ raise key_error | some v ↦ ok v ]

  -- `d.move_to_end(k)`
  unfoldable pub move_to_end : K → Dict K V → Result (Dict K V)
  move_to_end k d = elim (get k d) [ none ↦ raise key_error | some v ↦ ok (put k v (remove k d)) ]

  pub contains-get : (k : K) (d : Dict K V) → contains k d ≡ is_some (get k d)
  unfolding get contains
  contains-get k [] = refl
  contains-get k ((j, v) ∷ d) = ground (arith, contains-get k d)

  pub delete_present :
      (k : K) (v : V) (d : Dict K V) → get k d ≡ some v → delete k d ≡ ok (remove k d)
  delete_present k v d h = unfold delete in ground (arith, contains-get k d)

  pub get-put :
      (k j : K) (v : V) (d : Dict K V) → get j (put k v d) ≡ (if k == j then some v else get j d)
  unfolding get put
  get-put k j v [] = refl
  get-put k j v ((i, w) ∷ d) =
      ground (arith, e.equal_iff k j, e.equal_iff i k, e.equal_iff i j, get-put k j v d)

  pub get-remove :
      (k j : K) (d : Dict K V) → get j (remove k d) ≡ (if k == j then none else get j d)
  unfolding get remove
  get-remove k j [] = ground arith
  get-remove k j ((i, w) ∷ d) =
      ground (arith, e.equal_iff k j, e.equal_iff i k, e.equal_iff i j, get-remove k j d)

  pub contains-put :
      (k j : K) (v : V) (d : Dict K V) → contains j (put k v d) ≡ (k == j || contains j d)
  unfolding contains put
  contains-put k j v [] = refl
  contains-put k j v ((i, w) ∷ d) =
      ground (arith, e.equal_iff k j, e.equal_iff i k, e.equal_iff i j, contains-put k j v d)

  pub contains-remove :
      (k j : K) (d : Dict K V) → contains j (remove k d) ≡ (if k == j then false else contains j d)
  unfolding contains remove
  contains-remove k j [] = ground arith
  contains-remove k j ((i, w) ∷ d) =
      ground (arith, e.equal_iff k j, e.equal_iff i k, e.equal_iff i j, contains-remove k j d)

  -- no key stands twice
  abbrev pub IsDistinct : Dict K V → Type 0
  IsDistinct [] = Unit
  IsDistinct ((j, v) ∷ d) = (contains j d ≡ false) × IsDistinct d

  pub put-IsDistinct : (k : K) (v : V) (d : Dict K V) → IsDistinct d → IsDistinct (put k v d)
  unfolding contains put
  put-IsDistinct k v [] h = (refl, tt)
  put-IsDistinct k v ((i, w) ∷ d) h =
      ground
        (arith, e.equal_iff i k, e.equal_iff k i, contains-put k i v d, put-IsDistinct k v d h.1)

  pub remove-IsDistinct : (k : K) (d : Dict K V) → IsDistinct d → IsDistinct (remove k d)
  unfolding remove
  remove-IsDistinct k [] h = tt
  remove-IsDistinct k ((i, w) ∷ d) h =
      ground (arith, contains-remove k i d, remove-IsDistinct k d h.1)

  pub remove_absent : (k : K) (d : Dict K V) → contains k d ≡ false → remove k d ≡ d
  unfolding remove contains
  remove_absent k [] h = refl
  remove_absent k ((i, w) ∷ d) h = ground (arith, remove_absent k d)

  pub length-remove :
      (k : K) (d : Dict K V)
      → IsDistinct d
      → contains k d ≡ true
      → length (remove k d) + 1 ≡ length d
  unfolding remove contains
  length-remove k [] h c = cc
  length-remove k ((i, w) ∷ d) h c =
      ground (arith, e.equal_iff i k, length-remove k d h.1, remove_absent k d)

  pub length-put_new :
      (k : K) (v : V) (d : Dict K V) → contains k d ≡ false → length (put k v d) ≡ length d + 1
  unfolding put contains
  length-put_new k v [] h = omega arith
  length-put_new k v ((i, w) ∷ d) h = ground (arith, length-put_new k v d)

  pub length-put_old :
      (k : K) (v : V) (d : Dict K V) → contains k d ≡ true → length (put k v d) ≡ length d
  unfolding put contains
  length-put_old k v [] h = cc
  length-put_old k v ((i, w) ∷ d) h = ground (arith, length-put_old k v d)

  pub delete-contains : (k : K) (d : Dict K V) → contains k d ≡ true → delete k d ≡ ok (remove k d)
  unfolding delete
  delete-contains k d h = rw h

  pub move_to_end_present :
      (k : K) (v : V) (d : Dict K V)
      → get k d ≡ some v
      → move_to_end k d ≡ ok (put k v (remove k d))
  unfolding move_to_end
  move_to_end_present k v d h = rw (h, move_to_end)

  pub contains-remove_self : (k : K) (d : Dict K V) → contains k (remove k d) ≡ false
  contains-remove_self k d = ground (arith, contains-remove k k d, e.equal_iff k k)

  pub contains-touch :
      (k j : K) (v : V) (d : Dict K V)
      → contains j (put k v (remove k d)) ≡ (k == j || contains j d)
  contains-touch k j v d = ground (arith, contains-put k j v (remove k d), contains-remove k j d)

  pub length-touch :
      (k : K) (v : V) (d : Dict K V)
      → IsDistinct d
      → contains k d ≡ true
      → length (put k v (remove k d)) ≡ length d
  length-touch k v d h c =
      omega
        (arith, length-put_new k v (remove k d) (contains-remove_self k d), length-remove k d h c)

  pub put_new : (k : K) (v : V) (d : Dict K V) → contains k d ≡ false → put k v d ≡ d ++ (k, v) ∷ []
  unfolding put contains
  put_new k v [] h = refl
  put_new k v ((i, w) ∷ d) h = ground (arith, put_new k v d)
