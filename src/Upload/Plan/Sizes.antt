-- ===== src/Upload/Plan/Sizes.antt =====
-- The chunks of a task tile its file.
use cloud_box.Base.{
  ℕ, zero, suc, ◌+◌, ◌-◌, ◌*◌, ◌/◌, ◌≤◌, ◌<◌, ◌≡◌, arith, ◌==◌, refl, subst, true, false,
}
use native.Mathlib.Nat.{div-add-mod, mod-lt}
use cloud_box.Upload.Model.{Task}
use cloud_box.Upload.Plan.{total_chunks, expected_chunk_size}

-- The division that a task records is the one for its sizes.
pub record IsPlanned (t : Task) : Type 0 where
  pub file_pos : 0 < t.file_size
  pub chunk_pos : 0 < t.chunk_size
  pub total : t.total_chunks ≡ total_chunks t.file_size t.chunk_size

-- The sizes of the chunks from 0 up to `n`.
abbrev pub sum_sizes : Task → ℕ → ℕ
sum_sizes t zero = 0
sum_sizes t (suc n) = sum_sizes t n + expected_chunk_size t n

-- All chunks but the last, together, are shorter than the file, and one more chunk would cover it.
pub full_chunks :
    (t : Task)
    → IsPlanned t
    → (t.chunk_size * (t.total_chunks - 1) < t.file_size)
      × (t.file_size ≤ t.chunk_size * (t.total_chunks - 1) + t.chunk_size)
      × (1 ≤ t.total_chunks)
unfolding total_chunks
full_chunks t p =
    let e : t.total_chunks - 1 ≡ (t.file_size - 1) / t.chunk_size = omega (arith, p.total) in
    rw e (
      omega (
        arith,
        p.total,
        p.chunk_pos,
        p.file_pos,
        div-add-mod (t.file_size - 1) t.chunk_size,
        mod-lt (t.file_size - 1) p.chunk_pos,
      ))

pub expected_chunk_size_bounds :
    (t : Task) (n : ℕ)
    → IsPlanned t
    → (1 ≤ expected_chunk_size t n) × (expected_chunk_size t n ≤ t.chunk_size)
unfolding expected_chunk_size
expected_chunk_size_bounds t n p = let f = full_chunks t p in ground (arith, p.chunk_pos)

sum_full : (t : Task) (n : ℕ) → n < t.total_chunks → sum_sizes t n ≡ t.chunk_size * n
unfolding expected_chunk_size
sum_full t zero h = omega arith
sum_full t (suc n) h =
    let before : sum_sizes t n ≡ t.chunk_size * n = sum_full t n (omega arith) in
    let apart : (n + 1 == t.total_chunks) ≡ false = ground arith in rw apart (omega arith)

last_size :
    (t : Task) (n : ℕ)
    → n + 1 ≡ t.total_chunks
    → expected_chunk_size t n ≡ t.file_size - t.chunk_size * n
unfolding expected_chunk_size
last_size t n h =
    let hit : (n + 1 == t.total_chunks) ≡ true = ground arith in
    let e : t.total_chunks - 1 ≡ n = omega arith in rw (hit, e) refl

-- The chunks that a task expects tile its file: there is at least one, and no more of them than the
-- file has bytes; each has from one byte to the chunk size, and their sizes add up to the size of
-- the file. The product in the size of the last chunk stays below the size of the file, so that no
-- intermediate value leaves the range of int64 if the size of the file is in it.
pub sum_sizes-total_chunks :
    (t : Task)
    → IsPlanned t
    → (sum_sizes t t.total_chunks ≡ t.file_size)
      × ((n : ℕ)
          → n < t.total_chunks
          → (1 ≤ expected_chunk_size t n) × (expected_chunk_size t n ≤ t.chunk_size))
      × (1 ≤ t.total_chunks)
      × (t.total_chunks ≤ t.file_size)
      × (t.chunk_size * (t.total_chunks - 1) < t.file_size)
sum_sizes-total_chunks t p =
    let f = full_chunks t p in
    let e : suc (t.total_chunks - 1) ≡ t.total_chunks = omega (arith, f.2) in
    let s : sum_sizes t (t.total_chunks - 1) ≡ t.chunk_size * (t.total_chunks - 1) =
      sum_full t (t.total_chunks - 1) (omega (arith, f.2)) in
    let l = last_size t (t.total_chunks - 1) (omega (arith, f.2)) in
    (
      subst (λ n. sum_sizes t n ≡ t.file_size) e (omega (arith, s, l, f.0)),
      (λ n _. expected_chunk_size_bounds t n p),
      f.2,
      grind (arith, p.chunk_pos, f.0),
      f.0,
    )
