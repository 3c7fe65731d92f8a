-- ===== src/Storage/Chunks/Tiled.antt =====
-- What the requests of the chunk loop cover of the file.
use backupsheep.Prelude.{
  ℕ, zero, suc, ◌+◌, ◌*◌, ◌/◌, ◌≤◌, ◌<◌, ◌≡◌, refl, ◌⊎◌, inl, inr, List, [], ◌∷◌, ◌++◌, Option,
  none, length, take, drop, arith, Bool-cases, ltb, ltb→lt, sym, ap,
}
use mathlib.Core.List.{cons≢nil}
use native.Mathlib.Nat.{add-mul-div_right, div-eq_of_lt, le-div_iff_mul-le}
use backupsheep.Model.Rows.{Text}
use backupsheep.Storage.Chunks.Reads.{
  take-drop, length-take_short, length-take_full, length-take_bounds, length-take_some, read-cases,
  length-read,
}
use backupsheep.Storage.Chunks.{
  Bytes, Put, Reply, go_on, stop, Wire, Sent, end_index, put_of, resume, send_from, send_chunks,
}

-- The requests carry `bytes`, which stand at `at` in a file of `total` bytes, in order and without a
-- gap: the range of each one says where its data stands, and no data is empty or above the chunk size.
abbrev pub Tiles : ℕ → ℕ → ℕ → Bytes → List Put → Type 0
Tiles chunk_size total at bytes [] = (bytes ≡ []) × (at ≡ total)
Tiles chunk_size total at bytes (p ∷ ps) =
    (p.range_start ≡ at)
    × (p.range_last + 1 ≡ at + length p.content)
    × (p.total ≡ total)
    × (0 < length p.content)
    × (length p.content ≤ chunk_size)
    × (p.range_last < total)
    × ((rest : Bytes) × (bytes ≡ p.content ++ rest)
        × Tiles chunk_size total (at + length p.content) rest ps)

-- The last round is the one that `chunk_number` says.
last_round : (c i l : ℕ) → 0 < c → l < c → (l + i * c) / c ≡ i
last_round c i l h k = omega (arith, add-mul-div_right l i h, div-eq_of_lt k)

earlier_round : (c i l : ℕ) → 0 < c → c ≤ l → i < (l + i * c) / c
earlier_round c i l h k = (le-div_iff_mul-le h).1 (omega (arith, k))

end_index_short : (c i l : ℕ) → 0 < c → l < c → end_index c (l + i * c) i ≡ i * c + l
unfolding end_index
end_index_short c i l h k = rw (last_round c i l h k) (ground arith)

end_index_full : (c i l : ℕ) → 0 < c → c ≤ l → end_index c (l + i * c) i ≡ i * c + c
unfolding end_index
end_index_full c i l h k = ground (arith, earlier_round c i l h k)

end_index_lem :
    (c i total : ℕ) (rest : Bytes)
    → 0 < c
    → total ≡ length rest + i * c
    → end_index c total i ≡ i * c + length (take c rest)
end_index_lem c i total rest h left = elim (Bool-cases (ltb (length rest) c)) [
  | inl e ↦
      let short = ltb→lt (length rest) c e in
      rw (left, end_index_short c i (length rest) h short)
        (ap (λ n. i * c + n) (sym (length-take_short c rest (omega (arith, short)))))
  | inr e ↦
      let full : c ≤ length rest = ground (arith, e) in
      rw (left, end_index_full c i (length rest) h full)
        (ap (λ n. i * c + n) (sym (length-take_full c rest full)))
]

-- What a request says of itself, when its round is the `i`-th and `rest` is what is left.
put_of_fits :
    (w : Wire) (i total : ℕ) (b : ℕ) (bs : Bytes)
    → 0 < w.chunk_size
    → total ≡ length (b ∷ bs) + i * w.chunk_size
    → let p = put_of w total i (take w.chunk_size (b ∷ bs)) in
      (p.range_last + 1 ≡ i * w.chunk_size + length p.content)
      × (0 < length p.content)
      × (length p.content ≤ w.chunk_size)
      × (p.range_last < total)
unfolding put_of
put_of_fits w i total b bs h left =
    let content = take w.chunk_size (b ∷ bs) in
    let ends = end_index_lem w.chunk_size i total (b ∷ bs) h left in
    let size = length-take_bounds w.chunk_size (b ∷ bs) in
    let some_bytes = length-take_some w.chunk_size b bs h in
    (
      omega (arith, ends, some_bytes),
      some_bytes,
      size.0,
      omega (arith, ends, some_bytes, size.1, left),
    )

resume-Tiles :
    (c total at : ℕ) (bytes rest : Bytes) (r : Reply) (p : Put) (id : Option Text)
    (more : Option Text → Sent)
    → (p.range_start ≡ at)
      × (p.range_last + 1 ≡ at + length p.content)
      × (p.total ≡ total)
      × (0 < length p.content)
      × (length p.content ≤ c)
      × (p.range_last < total)
    → bytes ≡ p.content ++ rest
    → ((new : Option Text)
        → (more new).raised ≡ none
        → Tiles c total (at + length p.content) rest (more new).puts)
    → (resume r p id more).raised ≡ none
    → Tiles c total at bytes (resume r p id more).puts
unfolding resume
resume-Tiles c total at bytes rest (stop e) p id more fits cut tiles ok = cc
resume-Tiles c total at bytes rest (go_on new) p id more (s, l, t, n, m, k) cut tiles ok =
    (s, l, t, n, m, k, (rest, cut, tiles new ok))

send_from-Tiles :
    (w : Wire) (total fuel i at : ℕ) (rest : Bytes) (id : Option Text)
    → 0 < w.chunk_size
    → length rest < fuel
    → (i * w.chunk_size ≡ at) ⊎ (rest ≡ [])
    → at + length rest ≡ total
    → (send_from w total fuel i rest id).raised ≡ none
    → Tiles w.chunk_size total at rest (send_from w total fuel i rest id).puts
unfolding send_from
send_from-Tiles w total zero i at rest id c enough start left ok = absurd (omega (arith, enough))
send_from-Tiles w total (suc fuel) i at [] id c enough start left ok = (refl, omega (arith, left))
send_from-Tiles w total (suc fuel) i at (b ∷ bs) id c enough (inr start) left ok =
    absurd (cons≢nil start)
send_from-Tiles w total (suc fuel) i at (b ∷ bs) id c enough (inl start) left ok =
    let after = drop w.chunk_size (b ∷ bs) in
    let (l, n, m, k) = put_of_fits w i total b bs c (omega (arith, start, left)) in
    resume-Tiles w.chunk_size total at (b ∷ bs) after _ _ id _
      (start, omega (arith, l, start), refl, n, m, k) (take-drop w.chunk_size (b ∷ bs))
      (λ new fine.
        send_from-Tiles w total fuel (suc i) _ after new c
          (omega (
            arith,
            length-read w.chunk_size (b ∷ bs),
            length-take_some w.chunk_size b bs c,
            enough,
            c,
          ))
          (step (read-cases w.chunk_size (b ∷ bs)))
          (omega (arith, length-read w.chunk_size (b ∷ bs), left)) fine)
      ok
  where
    step :
        (length (take w.chunk_size (b ∷ bs)) ≡ w.chunk_size) ⊎ (drop w.chunk_size (b ∷ bs) ≡ [])
        → (suc i * w.chunk_size ≡ at + length (take w.chunk_size (b ∷ bs)))
          ⊎ (drop w.chunk_size (b ∷ bs) ≡ [])
    step (inl full) = inl (omega (arith, full, start))
    step (inr end) = inr end

-- A chunked upload that does not raise has sent the whole file.
pub send_chunks-Tiles :
    (w : Wire) (file : Bytes) (id : Option Text)
    → 0 < w.chunk_size
    → (send_chunks w file id).raised ≡ none
    → Tiles w.chunk_size (length file) 0 file (send_chunks w file id).puts
unfolding send_chunks
send_chunks-Tiles w file id c ok =
    send_from-Tiles w (length file) (suc (length file)) 0 0 file id c (omega arith)
      (inl (omega arith)) (omega arith) ok
