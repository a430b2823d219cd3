-- ===== src/Checkpoint/Relocation/Reads.antt =====
-- What a lookup finds after `relocate`.
use platform_system_vold.Base.{
  ℕ, suc, ◌+◌, ◌-◌, ◌<◌, ◌≤◌, ◌≡◌, refl, ap, ap₂, ◌∙◌, sym, true, ◌&&◌, [], ◌∷◌, ◌++◌, Option, none,
  some, ltb, leb, arith, if◌then◌else◌,
}
use platform_system_vold.Checkpoint.SectorMap.{below, above, floor, IsMap, insert_all, or_else}
use platform_system_vold.Checkpoint.SectorMap.Laws.{
  floor-cons, floor-append, floor-below, floor_cut, floor_le, floor_total,
}
use platform_system_vold.Checkpoint.SectorMap.Parts.{
  AllBelow-below, AllFrom-above, AllFrom-above-suc, AllFrom, Within, insert_all_between,
  erase_split,
}
use platform_system_vold.Checkpoint.SectorMap.Bounds.{
  floor-none, floor_ge, Within-AllFrom, Within-AllBelow, Within-Ascends, Ascends-above,
  Ascends-append, IsMap-append,
}
use platform_system_vold.Checkpoint.Relocation.{
  Relocations, add64, sub_add64, entry_sector, relocated, relocate, relocate_entries,
}
use platform_system_vold.Checkpoint.Relocation.Slice.{
  IsRange, shift_key, inner, slice_of, shift, moved, slice_loop-append, Within-shift, floor-shift,
}

-- The sector of which `relocate` makes `s` a copy.
abbrev pub origin : (dest source count s : ℕ) → ℕ
origin dest source count s = if leb dest s && ltb s (dest + count) then s - dest + source else s

module _ (dest source count : ℕ) (range : IsRange dest source count) (m : Relocations)
    (is_map : IsMap m) where
  -- The entries from the end of the destination on, with one that starts there.
  abbrev back : (j w : ℕ) → Relocations
  back j w = (dest + count, sub_add64 (dest + count) j w) ∷ above (dest + count) m

  abbrev result : (k v j w : ℕ) → Relocations
  result k v j w = below dest m ++ (slice_of dest source count range m k v ++ back j w)

  slice-Within : (k v : ℕ) → Within dest (dest + count) (slice_of dest source count range m k v)
  slice-Within k v =
      let h = range.some_sectors in
      let z : dest + (source - source) ≡ dest = omega arith in
      (
        omega arith,
        omega arith,
        rw z at (
            Within-shift dest source count range (above source m) source (omega arith)
              (Ascends-above source m is_map)),
      )

  back_from : (j w : ℕ) → AllFrom (dest + count) (back j w)
  back_from j w = (omega arith, AllFrom-above (dest + count) m)

  slice_from : (k v : ℕ) → AllFrom dest (slice_of dest source count range m k v)
  slice_from k v =
      Within-AllFrom dest (dest + count) (slice_of dest source count range m k v) (slice-Within k v)

  relocate-result :
      (k v j w : ℕ)
      → floor source m ≡ some (k, v)
      → floor (dest + count) m ≡ some (j, w)
      → relocate m dest source count ≡ some (result k v j w)
  unfolding relocate relocate_entries
  relocate-result k v j w f g =
      let e : add64 source count ≡ source + count = omega (arith, range.source_fits) in
      let d : add64 dest count ≡ dest + count = omega (arith, range.dest_fits) in
      rw (e, d)
        (rw (f, g)
          (ap some (
            ap₂ insert_all
              (slice_loop-append dest source count range ((dest, sub_add64 source k v) ∷ [])
                (above source m) source (omega arith) (Ascends-above source m is_map) (omega arith))
              (erase_split dest (dest + count) (sub_add64 (dest + count) j w) m (omega arith))
            ∙ insert_all_between dest (dest + count) (slice_of dest source count range m k v)
                (below dest m) (back j w) (AllBelow-below dest m) (slice-Within k v)
                (back_from j w))))

  result-IsMap : (k v j w : ℕ) → IsMap (result k v j w)
  result-IsMap k v j w =
      let rest = shift dest source (inner dest source count range m) in
      let within = slice-Within k v in
      IsMap-append dest (sub_add64 source k v) m (rest ++ back j w) is_map (
        Ascends-append dest (dest + count) rest (back j w)
          (Within-Ascends dest (dest + count) rest within.2)
          (Within-AllBelow (suc dest) (dest + count) rest within.2) within.1
          (omega arith, Ascends-above (dest + count) m is_map))

  floor-result :
      (s k v j w : ℕ)
      → floor s (result k v j w)
        ≡ or_else
            (or_else (floor s (back j w)) (floor s (slice_of dest source count range m k v)))
            (floor s (below dest m))
  floor-result s k v j w =
      floor-append s (below dest m) (slice_of dest source count range m k v ++ back j w)
      ∙ ap (λ o. or_else o (floor s (below dest m)))
          (floor-append s (slice_of dest source count range m k v) (back j w))

  -- In front of the destination nothing changes.
  reads_before : (s k v j w : ℕ) → s < dest → relocated (result k v j w) s ≡ relocated m s
  unfolding relocated
  reads_before s k v j w h =
      let none_behind = floor-none s (dest + count) (back j w) (back_from j w) (omega arith) in
      let none_inside =
        floor-none s dest (slice_of dest source count range m k v) (slice_from k v) h in
      rw (floor-result s k v j w, none_behind, none_inside, floor-below s dest m h)

  entry_behind :
      (s j w : ℕ) (a b c : Option (ℕ × ℕ))
      → dest + count ≤ s
      → j ≤ dest + count
      → entry_sector s
          (or_else (or_else (or_else a (some (dest + count, sub_add64 (dest + count) j w))) b) c)
        ≡ entry_sector s (or_else a (some (j, w)))
  entry_behind s j w (some e) b c h l = refl
  entry_behind s j w none b c h l = ap some (omega (arith, range.dest_fits))

  -- From the end of the destination on nothing changes.
  reads_behind :
      (s k v j w : ℕ)
      → dest + count ≤ s
      → floor (dest + count) m ≡ some (j, w)
      → relocated (result k v j w) s ≡ relocated m s
  unfolding relocated
  reads_behind s k v j w h g =
      let t : leb (dest + count) s ≡ true = ground arith in
      rw
        (
          floor-result s k v j w,
          floor_cut s (dest + count) m is_map h,
          floor-cons s (dest + count) (sub_add64 (dest + count) j w) (above (dest + count) m),
          t,
          g,
        )
        (entry_behind s j w (floor s (above (dest + count) m)) _ _ h
          (floor_le (dest + count) m j w g))

  entry_inside :
      (s k v : ℕ) (a c : Option (ℕ × ℕ))
      → dest ≤ s
      → s < dest + count
      → k ≤ source
      → ((k' v' : ℕ) → a ≡ some (k', v') → (source < k') × (k' < source + count))
      → entry_sector s (
          or_else (or_else (moved dest source count range a) (some (dest, sub_add64 source k v))) c)
        ≡ entry_sector (s - dest + source) (or_else a (some (k, v)))
  entry_inside s k v none c h l e b = ap some (omega (arith, range.source_fits))
  entry_inside s k v (some (k', v')) c h l e b =
      let (lo, hi) = b k' v' refl in
      ap some (
        omega (
          arith,
          range.source_fits,
          range.dest_fits,
          shift_key dest source count range k' (omega arith) hi,
        ))

  -- In the destination a lookup finds what it found in the source.
  reads_inside :
      (s k v j w : ℕ)
      → dest ≤ s
      → s < dest + count
      → floor source m ≡ some (k, v)
      → relocated (result k v j w) s ≡ relocated m (s - dest + source)
  unfolding relocated
  reads_inside s k v j w h l f =
      let t = s - dest + source in
      let rest = shift dest source (inner dest source count range m) in
      let none_behind = floor-none s (dest + count) (back j w) (back_from j w) l in
      let cut = floor-below t (source + count) (above source m) (omega arith) in
      let test : leb dest s ≡ true = ground arith in
      rw
        (
          floor-result s k v j w,
          none_behind,
          floor-cons s dest (sub_add64 source k v) rest,
          test,
          floor-shift dest source count range s m h,
          floor_cut t source m is_map (omega arith),
          ← cut,
          f,
        )
        (entry_inside s k v (floor t (inner dest source count range m)) _ h l
          (floor_le source m k v f)
          (λ k' v' e. (
            floor_ge t (suc source) (above source m) k' v' (AllFrom-above-suc source m)
                (sym cut ∙ e),
            omega (arith, floor_le t (inner dest source count range m) k' v' e),
          )))

  result_reads :
      (s k v j w : ℕ)
      → floor source m ≡ some (k, v)
      → floor (dest + count) m ≡ some (j, w)
      → relocated (result k v j w) s ≡ relocated m (origin dest source count s)
  result_reads s k v j w f g =
      ground (arith, reads_before s k v j w, reads_inside s k v j w, reads_behind s k v j w)

-- `relocate` on a range that fits 64 bits never steps in front of the map's first entry. The new
-- map keeps ascending keys that begin with 0, and a lookup in it finds for each sector of the
-- destination what the old map gave for the source sector in its place, and for any other sector
-- what the old map gave for it.
pub relocate_copies :
    (m : Relocations) (dest source count : ℕ)
    → IsMap m
    → IsRange dest source count
    → (m' : Relocations) × (relocate m dest source count ≡ some m')
      × IsMap m'
      × ((s : ℕ) → relocated m' s ≡ relocated m (origin dest source count s))
relocate_copies m dest source count is_map range =
    let (k, v, f, _) = floor_total source m is_map in
    let (j, w, g, _) = floor_total (dest + count) m is_map in
    (
      result dest source count range m is_map k v j w,
      relocate-result dest source count range m is_map k v j w f g,
      result-IsMap dest source count range m is_map k v j w,
      λ s. result_reads dest source count range m is_map s k v j w f g,
    )
