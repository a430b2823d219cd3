-- ===== src/Checkpoint/SectorMap/Bounds.antt =====
-- Bounds on the keys of a list of entries: what a lookup can find, and how ascending lists join.
use platform_system_vold.Base.{
  ℕ, suc, ◌<◌, ◌≤◌, ◌≡◌, false, List, [], ◌∷◌, ◌++◌, none, some, ltb, arith, Bool-cases, inl, inr,
  ltb→lt,
}
use platform_system_vold.Checkpoint.SectorMap.{below, above, first?, floor, Ascends, IsMap}
use platform_system_vold.Checkpoint.SectorMap.Laws.{floor-cons, floor_nil, above_all, below_none}
use platform_system_vold.Checkpoint.SectorMap.Parts.{AllBelow, AllFrom, Within, AllBelow-below}

module _ {V : Type 0} where
  pub floor-none : (s n : ℕ) (m : List (ℕ × V)) → AllFrom n m → s < n → floor s m ≡ none
  floor-none s n [] a h = floor_nil s
  floor-none s n ((k, v) ∷ m) a h = ground (arith, floor-cons s k v m, floor-none s n m a.1 h)

  pub floor_ge :
      (s n : ℕ) (m : List (ℕ × V)) (k : ℕ) (v : V) → AllFrom n m → floor s m ≡ some (k, v) → n ≤ k
  floor_ge s n [] k v a h = ground (arith, floor_nil {V = V} s)
  floor_ge s n ((j, w) ∷ m) k v a h = ground (arith, floor-cons s j w m, floor_ge s n m k v a.1)

  pub AllFrom-mono : (n k : ℕ) (m : List (ℕ × V)) → AllFrom n m → k ≤ n → AllFrom k m
  AllFrom-mono n k [] a h = tt
  AllFrom-mono n k ((j, w) ∷ m) a h = (omega arith, AllFrom-mono n k m a.1 h)

  pub Within-AllFrom : (lo hi : ℕ) (m : List (ℕ × V)) → Within lo hi m → AllFrom lo m
  Within-AllFrom lo hi [] w = tt
  Within-AllFrom lo hi ((k, v) ∷ m) w =
      (w.0, AllFrom-mono (suc k) lo m (Within-AllFrom (suc k) hi m w.2) (omega arith))

  pub Within-AllBelow : (lo hi : ℕ) (m : List (ℕ × V)) → Within lo hi m → AllBelow hi m
  Within-AllBelow lo hi [] w = tt
  Within-AllBelow lo hi ((k, v) ∷ m) w = (w.1, Within-AllBelow (suc k) hi m w.2)

  pub Within-Ascends : (lo hi : ℕ) (m : List (ℕ × V)) → Within (suc lo) hi m → Ascends lo m
  Within-Ascends lo hi [] w = tt
  Within-Ascends lo hi ((k, v) ∷ m) w = (w.0, Within-Ascends k hi m w.2)

  pub Ascends-lower : (lo lo' : ℕ) (m : List (ℕ × V)) → Ascends lo m → lo' ≤ lo → Ascends lo' m
  Ascends-lower lo lo' [] a h = tt
  Ascends-lower lo lo' ((k, v) ∷ m) a h = (omega arith, a.1)

  pub Ascends-below : (n lo : ℕ) (m : List (ℕ × V)) → Ascends lo m → Ascends lo (below n m)
  unfolding below
  Ascends-below n lo [] a = tt
  Ascends-below n lo ((k, v) ∷ m) a =
      ground (arith, Ascends-below n k m a.1, Ascends-lower k lo (below n m))

  above-Ascends : (n lo : ℕ) (m : List (ℕ × V)) → Ascends lo m → Ascends n (above n m)
  unfolding above
  above-Ascends n lo [] a = tt
  above-Ascends n lo ((k, v) ∷ m) a = ground (arith, above-Ascends n k m a.1, above_all n k m a.1)

  pub Ascends-above : (n : ℕ) (m : List (ℕ × V)) → IsMap m → Ascends n (above n m)
  unfolding above
  Ascends-above n [] a = absurd a
  Ascends-above n ((k, v) ∷ m) (e, a) =
      let t : ltb n k ≡ false = ground arith in rw t (above-Ascends n 0 m a)

  -- Every key is at least `n`, and the keys ascend.
  abbrev pub Starts : ℕ → List (ℕ × V) → Type 0
  Starts n [] = Unit {0}
  Starts n ((k, v) ∷ m) = (n ≤ k) × Ascends k m

  pub Ascends-append :
      (lo n : ℕ) (xs ys : List (ℕ × V))
      → Ascends lo xs
      → AllBelow n xs
      → lo < n
      → Starts n ys
      → Ascends lo (xs ++ ys)
  Ascends-append lo n [] [] a b h s = tt
  Ascends-append lo n [] ((k, v) ∷ ys) a b h s = (omega arith, s.1)
  Ascends-append lo n ((k, v) ∷ xs) ys a b h s = (a.0, Ascends-append k n xs ys a.1 b.1 b.0 s)

  -- A map's part below `n` with ascending entries from `n` on behind it.
  pub IsMap-append :
      (n : ℕ) (w : V) (m ys : List (ℕ × V))
      → IsMap m
      → Ascends n ys
      → IsMap (below n m ++ ((n, w) ∷ ys))
  unfolding below
  IsMap-append n w [] ys a s = absurd a
  IsMap-append n w ((k, u) ∷ m) ys (e, a) s = elim (Bool-cases (ltb k n)) [
    | inl t ↦
        let h : k < n = ltb→lt k n t in
        rw t (
          e,
          Ascends-append 0 n (below n m) ((n, w) ∷ ys) (Ascends-below n 0 m a) (AllBelow-below n m)
              (omega arith) (omega arith, s),
        )
    | inr t ↦
        let z : n ≡ 0 = ground arith in
        rw (t, below_none n 0 m a (omega arith)) (z, Ascends-lower n 0 ys s (omega arith))
  ]

  pub Ascends-AllFrom : (lo : ℕ) (m : List (ℕ × V)) → Ascends lo m → AllFrom (suc lo) m
  Ascends-AllFrom lo [] a = tt
  Ascends-AllFrom lo ((k, v) ∷ m) a =
      (a.0, AllFrom-mono (suc k) (suc lo) m (Ascends-AllFrom k m a.1) (omega arith))

  -- The first key of an ascending list is its least.
  pub first?-AllFrom :
      (lo : ℕ) (m : List (ℕ × V)) (n : ℕ) (b : V)
      → Ascends lo m
      → first? m ≡ some (n, b)
      → AllFrom n m
  unfolding first?
  first?-AllFrom lo [] n b a e = cc
  first?-AllFrom lo ((k, v) ∷ m) n b a e =
      let same : n ≡ k = ground arith in
      (omega arith, AllFrom-mono (suc k) n m (Ascends-AllFrom k m a.1) (omega arith))

  -- The first key of a list behind another is at most the first of its own.
  pub first?-append :
      (n k : ℕ) (b v : V) (xs ys : List (ℕ × V))
      → AllBelow k xs
      → first? (xs ++ ((k, v) ∷ ys)) ≡ some (n, b)
      → n ≤ k
  unfolding first?
  first?-append n k b v [] ys a e = ground arith
  first?-append n k b v ((j, w) ∷ xs) ys a e = ground arith

  pub first?_ge :
      (lo : ℕ) (m : List (ℕ × V)) (n : ℕ) (b : V) → AllFrom lo m → first? m ≡ some (n, b) → lo ≤ n
  unfolding first?
  first?_ge lo [] n b a e = cc
  first?_ge lo ((k, v) ∷ m) n b a e = ground arith
