-- ===== src/Fuji/Safe.antt =====
-- catalog/fuji.go: the decoder of a maker note on any bytes.
use fragments.Base.{
  ◌≡◌, refl, arith, ℕ, zero, suc, ◌+◌, ◌*◌, ◌^◌, ◌≤◌, ◌<◌, true, ◌||◌, Option, none, some, List, [],
  ◌∷◌, inl, inr, length, is_some, codes, ltb, ◌==◌, Option-cases, Bool-cases,
}
use fragments.Fuji.Bytes.{u32, from_index}
use fragments.Fuji.Note.{
  MakerNote, elements, read_ascii, integer_entry, entry, entries, lookup, tiff_int_sizes,
  parse_fuji_maker_note, parse_at, empty_note,
}
use fragments.Fuji.Reads.{
  le32-Given, bind-Some, elements-Given, bind-from, bind-slice, bind-le16, bind-le32,
}

read_ascii-Given :
    (b val : List ℕ) (cnt : ℕ)
    → length b < 2 ^ 32
    → length val ≡ 4
    → is_some (read_ascii b val cnt) ≡ true
unfolding read_ascii
read_ascii-Given b val cnt h k = ground (arith, le32-Given val)

size-cnt : (typ size cnt : ℕ) → lookup typ tiff_int_sizes ≡ some size → cnt ≤ 64 → size * cnt ≤ 256
size-cnt typ size cnt h k = ground arith

mul_comm : (m n : ℕ) → m * n ≡ n * m
mul_comm m n = omega arith

integer_entry-Given :
    (b : List ℕ) (fn : MakerNote) (tag typ cnt size : ℕ) (val : List ℕ)
    → length b < 2 ^ 32
    → length val ≡ 4
    → cnt ≤ 64
    → lookup typ tiff_int_sizes ≡ some size
    → is_some (integer_entry b fn tag typ cnt size val) ≡ true
unfolding integer_entry
integer_entry-Given b fn tag typ cnt size val h k c w =
    let small = size-cnt typ size cnt w c in
    elim (Bool-cases (ltb 4 (u32 (size * cnt)))) [
      | inl t ↦ rw t (
          bind-le32 val _ (omega (arith, k)) (λ o.
            elim (Bool-cases (ltb (length b) (o + size * cnt))) [
              | inl s ↦ rw s refl
              | inr s ↦ rw s (
                  bind-slice o (u32 (o + u32 (size * cnt))) b _ (ground (arith, small))
                    (ground (arith, small))
                    (λ r l.
                      bind-Some (elements typ size r cnt 0) _
                        (elements-Given typ size r cnt 0 w
                          (ground (arith, small, l, mul_comm size cnt))
                          (omega (arith, small, mul_comm size cnt)))
                        (λ vs e. refl)))
            ]))
      | inr t ↦ rw t (
          bind-Some (elements typ size val cnt 0) _
            (elements-Given typ size val cnt 0 w (ground (arith, small, mul_comm size cnt))
              (omega (arith, small, mul_comm size cnt)))
            (λ vs e. refl))
    ]

entry-Given :
    (b : List ℕ) (fn : MakerNote) (off : ℕ)
    → length b < 2 ^ 32
    → off + 12 ≤ length b
    → is_some (entry b fn off) ≡ true
unfolding entry
entry-Given b fn off h k = bind-from off b _ (omega (arith, k)) (λ at_tag l0.
    bind-le16 at_tag _ (omega (arith, l0, k)) (λ tag.
      bind-from (off + 2) b _ (omega (arith, k)) (λ at_typ l1.
        bind-le16 at_typ _ (omega (arith, l1, k)) (λ typ.
          bind-from (off + 4) b _ (omega (arith, k)) (λ at_cnt l2.
            bind-le32 at_cnt _ (omega (arith, l2, k)) (λ cnt.
              bind-slice (off + 8) (off + 12) b _ (omega arith) k (λ val l3.
                elim (Bool-cases (typ == 2)) [
                  | inl t ↦ rw t (elim (Bool-cases (ltb 4096 cnt)) [
                    | inl s ↦ rw s refl
                    | inr s ↦ rw s (
                        bind-Some (read_ascii b val cnt) _
                          (read_ascii-Given b val cnt h (omega (arith, l3))) (λ r e. refl))
                  ])
                  | inr t ↦ rw t (elim (Option-cases (lookup typ tiff_int_sizes)) [
                    | inl e ↦ rw e refl
                    | inr w ↦ rw w.1 (elim (Bool-cases (cnt == 0 || ltb 64 cnt)) [
                      | inl s ↦ rw s refl
                      | inr s ↦ rw s (
                          integer_entry-Given b fn tag typ cnt w.0 val h (omega (arith, l3))
                            (ground arith) w.1)
                    ])
                  ])
                ])))))))

entries-Given :
    (b : List ℕ) (base left i : ℕ) (fn : MakerNote)
    → length b < 2 ^ 32
    → is_some (entries b base left i fn) ≡ true
unfolding entries
entries-Given b base zero i fn h = refl
entries-Given b base (suc left) i fn h = elim (Bool-cases (ltb (length b) (base + i * 12 + 12))) [
  | inl t ↦ rw t refl
  | inr t ↦ rw t (
      bind-Some (entry b fn (base + i * 12)) _ (entry-Given b fn (base + i * 12) h (ground arith))
        (λ next e. entries-Given b base left (suc i) next h))
]

from_index-le : (p raw b : List ℕ) → from_index p raw ≡ some b → length b ≤ length raw
from_index-le p [] b e = ground arith
from_index-le p (x ∷ xs) b e = ground (arith, from_index-le p xs b)

parse_at-Given :
    (o : Option (List ℕ))
    → ((b : List ℕ) → o ≡ some b → length b < 2 ^ 32)
    → is_some (parse_at o) ≡ true
unfolding parse_at
parse_at-Given none h = refl
parse_at-Given (some b) h = elim (Bool-cases (ltb (length b) 12)) [
  | inl t ↦ rw t refl
  | inr t ↦ rw t (
      bind-slice 8 12 b _ (omega arith) (ground arith) (λ field l.
        bind-le32 field _ (omega (arith, l)) (λ off. elim (Bool-cases (ltb (length b) (off + 2))) [
          | inl s ↦ rw s refl
          | inr s ↦ rw s (
              bind-from off b _ (ground arith) (λ at_count l2.
                bind-le16 at_count _ (ground arith) (λ count.
                  bind-Some (entries b (off + 2) count 0 empty_note) _
                    (entries-Given b (off + 2) count 0 empty_note (h b refl)) (λ fn e. refl))))
        ])))
]

-- The decoder never reads out of range of a maker note shorter than 4 GiB, whatever its bytes.
pub parse_fuji_maker_note_total :
    (raw : List ℕ) → length raw < 2 ^ 32 → is_some (parse_fuji_maker_note raw) ≡ true
unfolding parse_fuji_maker_note
parse_fuji_maker_note_total raw h =
    parse_at-Given (from_index (codes "FUJIFILM") raw)
      (λ b e. omega (arith, from_index-le (codes "FUJIFILM") raw b e, h))
