-- ===== src/Fd/Table/Laws.antt =====
-- What `fd_alloc`, `fd_dealloc` and a change of one entry do to the entries of the table.
use filestick.Base.{
  ℕ, zero, suc, ◌+◌, ◌<◌, ◌≡◌, refl, ap, ◌≢◌, ◌⊎◌, inl, inr, none, some, [], ◌∷◌, arith,
  Option-cases, length, get_elem?,
}
use native.Mathlib.Decide.{ℕ_discrete}
use filestick.Fd.Table.{Fd, FdTable, flag_allocated, alloc_from, fd_alloc, modify}

module _ {D : Type 0} where
  pub length-modify : (t : FdTable D) (i : ℕ) (f : Fd D → Fd D) → length (modify t i f) ≡ length t
  unfolding modify
  length-modify [] i f = refl
  length-modify (e ∷ t) zero f = refl
  length-modify (e ∷ t) (suc i) f = ap suc (length-modify t i f)

  pub get-modify_self :
      (t : FdTable D) (i : ℕ) (f : Fd D → Fd D) {e : Fd D}
      → get_elem? t i ≡ some e
      → get_elem? (modify t i f) i ≡ some (f e)
  unfolding modify
  get-modify_self [] i f h = ground arith
  get-modify_self (e ∷ t) zero f h = ground arith
  get-modify_self (e ∷ t) (suc i) f h = get-modify_self t i f h

  pub get-modify_ne :
      (t : FdTable D) (i j : ℕ) (f : Fd D → Fd D)
      → i ≢ j
      → get_elem? (modify t i f) j ≡ get_elem? t j
  unfolding modify
  get-modify_ne [] i j f h = refl
  get-modify_ne (e ∷ t) zero zero f h = absurd (h refl)
  get-modify_ne (e ∷ t) zero (suc j) f h = refl
  get-modify_ne (e ∷ t) (suc i) zero f h = refl
  get-modify_ne (e ∷ t) (suc i) (suc j) f h = get-modify_ne t i j f (λ p. h (ap suc p))

  -- What a successful allocation from entry `i` on has done: the entry at offset `off` was the
  -- first free one, it is marked and numbered, and the others are as they were.
  pub record Allocated (i : ℕ) (t : FdTable D) (n : ℕ) (t' : FdTable D) : Type 0 where
    pub off : ℕ
    pub number : n ≡ i + off
    pub entry : Fd D
    pub was : get_elem? t off ≡ some entry
    pub free : entry.flags ≡ 0
    pub least : (j : ℕ) (e : Fd D) → j < off → get_elem? t j ≡ some e → e.flags ≢ 0
    pub marked : t' ≡ modify t off (λ e. record e { flags = flag_allocated; fd = n })

  no_entry : {i : ℕ} {n : ℕ} {t' : FdTable D} → alloc_from i [] ≡ some (n, t') → Allocated i [] n t'
  unfolding alloc_from
  no_entry h = absurd (ground arith)

  alloc_here :
      (i : ℕ) (e : Fd D) (t : FdTable D) {n : ℕ} {t' : FdTable D}
      → e.flags ≡ 0
      → alloc_from i (e ∷ t) ≡ some (n, t')
      → Allocated i (e ∷ t) n t'
  unfolding alloc_from modify
  alloc_here i e t f h = record {
    off = 0;
    number = ground arith;
    entry = e;
    was = refl;
    free = f;
    least = λ j x lt g. absurd (omega arith);
    marked = ground arith;
  }

  alloc_there :
      (i : ℕ) (e : Fd D) (t : FdTable D) {n : ℕ} {t₁ : FdTable D}
      → e.flags ≢ 0
      → Allocated (i + 1) t n t₁
      → Allocated i (e ∷ t) n (e ∷ t₁)
  unfolding modify
  alloc_there i e t f a = record {
    off = suc a.off;
    number = omega (arith, a.number);
    entry = a.entry;
    was = a.was;
    free = a.free;
    least = least;
    marked = ap (λ u. e ∷ u) a.marked;
  }
    where
      least : (j : ℕ) (x : Fd D) → j < suc a.off → get_elem? (e ∷ t) j ≡ some x → x.flags ≢ 0
      least zero x lt g = ground arith
      least (suc j) x lt g = a.least j x (omega arith) g

  alloc_from-cons :
      (i : ℕ) (e : Fd D) (t : FdTable D) {n : ℕ} {t' : FdTable D}
      → e.flags ≢ 0
      → alloc_from i (e ∷ t) ≡ some (n, t')
      → (t₁ : FdTable D) × (alloc_from (i + 1) t ≡ some (n, t₁)) × (t' ≡ e ∷ t₁)
  unfolding alloc_from
  alloc_from-cons i e t f h = elim (Option-cases (alloc_from (i + 1) t)) [
    | inl q ↦ ground arith
    | inr (r, q) ↦ (r.1, ground arith, ground arith)
  ]

  alloc_from-Allocated :
      (i : ℕ) (t : FdTable D) {n : ℕ} {t' : FdTable D}
      → alloc_from i t ≡ some (n, t')
      → Allocated i t n t'
  alloc_from-Allocated i [] h = no_entry h
  alloc_from-Allocated i (e ∷ t) h = elim (ℕ_discrete e.flags 0) [
    | yes f ↦ alloc_here i e t f h
    | no f ↦
        let (t₁, q, r) = alloc_from-cons i e t f h in
        rw r (alloc_there i e t f (alloc_from-Allocated (i + 1) t q))
  ]

  pub fd_alloc-Allocated :
      (t : FdTable D) {n : ℕ} {t' : FdTable D} → fd_alloc t ≡ some (n, t') → Allocated 0 t n t'
  unfolding fd_alloc
  fd_alloc-Allocated t h = alloc_from-Allocated 0 t h

  -- `fd_alloc` fails exactly when no entry is free.
  pub alloc_from-none :
      (i : ℕ) (t : FdTable D) (j : ℕ) (e : Fd D)
      → alloc_from i t ≡ none
      → get_elem? t j ≡ some e
      → e.flags ≢ 0
  unfolding alloc_from
  alloc_from-none i [] j e h g = ground arith
  alloc_from-none i (x ∷ t) zero e h g = ground arith
  alloc_from-none i (x ∷ t) (suc j) e h g = ground (arith, alloc_from-none (i + 1) t j e)

  pub modify-modify :
      (t : FdTable D) (i : ℕ) (f g : Fd D → Fd D)
      → modify (modify t i f) i g ≡ modify t i (λ e. g (f e))
  unfolding modify
  modify-modify [] i f g = refl
  modify-modify (e ∷ t) zero f g = refl
  modify-modify (e ∷ t) (suc i) f g = ap (λ u. e ∷ u) (modify-modify t i f g)

  -- An entry of a changed table is the changed one, or was there.
  pub get-modify_inv :
      (t : FdTable D) (i : ℕ) (f : Fd D → Fd D) (j : ℕ) (e : Fd D)
      → get_elem? (modify t i f) j ≡ some e
      → ((j ≡ i) × ((x : Fd D) × (get_elem? t j ≡ some x) × (e ≡ f x))) ⊎ (get_elem? t j ≡ some e)
  unfolding modify
  get-modify_inv [] i f j e h = inr h
  get-modify_inv (y ∷ t) zero f zero e h = inl (refl, (y, refl, ground arith))
  get-modify_inv (y ∷ t) zero f (suc j) e h = inr h
  get-modify_inv (y ∷ t) (suc i) f zero e h = inr h
  get-modify_inv (y ∷ t) (suc i) f (suc j) e h = elim (get-modify_inv t i f j e h) [
    | inl (p, r) ↦ inl (ap suc p, r)
    | inr q ↦ inr q
  ]
