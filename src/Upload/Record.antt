-- ===== src/Upload/Record.antt =====
-- The row that `UpsertChunk` of internal/upload/repository.go leaves.
use cloud_box.Base.{
  ◌≡◌, refl, ◌∙◌, String, true, some, ◌==◌, ==_iff, arith, Option-cases, inl, inr, and_right,
  str_eq, eq_iff, str_eq_refl,
}
use cloud_box.Sql.{find_where}
use cloud_box.Sql.Laws.{find_where-update, find_where-holds}
use cloud_box.Sql.Keys.{find_where-insert}
use cloud_box.Upload.Model.{Chunk, Store}
use cloud_box.Upload.Repository.{is_chunk, put_chunk}

chunk_upload : Chunk → String
chunk_upload c = c.upload_id

-- The row of a chunk, with the size and the hash that have been recorded.
pub record Recorded {F : Type 0} (c r : Chunk) (s : Store F) : Type 0 where
  pub row : find_where (is_chunk c.upload_id c.number) s.chunks ≡ some r
  pub number : r.number ≡ c.number
  pub size : r.size ≡ c.size
  pub hash : r.hash ≡ c.hash

module _ {F : Type 0} (c : Chunk) (s : Store F) where
  found : is_chunk c.upload_id c.number c ≡ true
  found = rw (str_eq_refl c.upload_id) (ground arith)

  -- What the insertion or the update of a chunk leaves.
  pub put_chunk_lem : (r : Chunk) × Recorded c r (put_chunk c s)
  unfolding put_chunk
  put_chunk_lem = elim (Option-cases (find_where (is_chunk c.upload_id c.number) s.chunks)) [
    | inl e ↦ rw e (
      record c { created_at = s.clock },
      record {
        row =
            rw
              (
                find_where-insert str_eq eq_iff chunk_upload (is_chunk c.upload_id c.number)
                    s.chunks (record c { created_at = s.clock }),
                e,
                found,
              )
              refl;
        number = refl;
        size = refl;
        hash = refl;
      },
    )
    | inr (old, e) ↦
        let here = find_where-holds (is_chunk c.upload_id c.number) s.chunks old e in
        rw e (
          record old { size = c.size; hash = c.hash },
          record {
            row =
                find_where-update (is_chunk c.upload_id c.number) (is_chunk c.upload_id c.number)
                  (λ x. record x { size = c.size; hash = c.hash }) s.chunks (λ r. refl)
                ∙ rw (e, here) refl;
            number =
                (==_iff old.number c.number).0
                  (and_right (str_eq old.upload_id c.upload_id) (old.number == c.number) here);
            size = refl;
            hash = refl;
          },
        )
  ]

  pub put_chunk_rest : ((put_chunk c s).tasks ≡ s.tasks) × ((put_chunk c s).disk ≡ s.disk)
  unfolding put_chunk
  put_chunk_rest = ground arith
