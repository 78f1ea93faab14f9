-- ===== src/File/References/Statements.antt =====
-- The statements of internal/file/repository.go on files and contents keep the books.
use cloud_box.Base.{
  ℕ, ◌+◌, suc, ◌≤◌, ◌≡◌, refl, sym, ap, ◌∙◌, Bool, true, none, some, List, [], ◌∷◌, ◌++◌, ◌==◌,
  ==_iff, str_eq, eq_iff, arith, inl, inr, Option-cases, Bool-cases, if◌then◌else◌, String,
}
use cloud_box.Exec.Works.{Post}
use cloud_box.Sql.{find_where, update_where, affected}
use cloud_box.Sql.Laws.{find_where-holds, affected-zero}
use cloud_box.Sql.Keys.{find_where-insert, insert-Unique, update-Unique, find_where-update_none}
use cloud_box.Sql.Counts.{to_ℕ, affected-insert, affected-update}
use cloud_box.File.Model.{UserFile, FileObject}
use cloud_box.File.Tables.{Store, object_has_id, file_of, refers, file_references}
use cloud_box.File.Repository.Files.{insert_file}
use cloud_box.File.Repository.Objects.{insert_object, update_objects, one_reference_more, has_hash}
use cloud_box.File.References.{
  Balanced, IsConsistent, count_of, count_of-insert, count_of-update, object_id, object_hash,
  file_id,
}

-- A table with one row more has no key that it did not have, but the row's.
pub fresh-insert :
    {A : Type 0} (key : A → ℕ) (rows : List A) (r : A) (next : ℕ)
    → ((k : ℕ) → next ≤ k → find_where (λ q. key q == k) rows ≡ none)
    → key r ≡ next
    → (k : ℕ) → suc next ≤ k
    → find_where (λ q. key q == k) (rows ++ r ∷ []) ≡ none
fresh-insert key rows r next fresh e k later =
    find_where-insert ◌==◌ ==_iff key (λ q. key q == k) rows r
    ∙ rw (fresh k (omega (arith, later)), e) (ground arith)

-- What the counts are after `reference_count + 1` for a content that there is.
count_of-more :
    (object k : ℕ) (rows : List FileObject) (o : FileObject)
    → find_where (object_has_id object) rows ≡ some o
    → count_of (update_where (object_has_id object) one_reference_more rows) k
      ≡ count_of rows k + to_ℕ (object == k)
count_of-more object k rows o e =
    count_of-update (object_has_id object) one_reference_more rows k (λ o. refl)
    ∙ elim (Option-cases (find_where (object_has_id k) rows)) [
      | inl n ↦ rw n (elim (Bool-cases (object == k)) [
        | inl t ↦ absurd (missing ((==_iff object k).0 t) n)
        | inr t ↦ rw t refl
      ])
      | inr (r, n) ↦ rw n (more r (find_where-holds (object_has_id k) rows r n))
    ]
  where
    missing : object ≡ k → find_where (object_has_id k) rows ≡ none → ⊥
    missing same n = cc (e, rw (← same) at n)

    more :
        (r : FileObject)
        → (r.id == k) ≡ true
        → (if r.id == object then one_reference_more r else r).reference_count
          ≡ r.reference_count + to_ℕ (object == k)
    more r t = ground arith

module _ {E : Type 0} where
  -- A new file of the content `o` is not counted yet.
  pub insert_file-Balanced :
      (f : UserFile) (s : Store E)
      → IsConsistent s
      → Post
          (λ _ t. Balanced f.object_id none t)
          (λ _ t. t ≡ s)
          (insert_file f s).0
          (insert_file f s).1
  unfolding insert_file
  insert_file-Balanced f s c = elim (Bool-cases (file_references f s)) [
    | inl t ↦ rw t (record {
      object_ids = c.object_ids;
      object_hashes = c.object_hashes;
      file_ids =
          insert-Unique ◌==◌ ==_iff file_id s.user_files row
            (c.file_fresh s.next_file_id (omega arith)) c.file_ids;
      object_fresh = c.object_fresh;
      file_fresh = fresh-insert file_id s.user_files row s.next_file_id c.file_fresh refl;
      counted = λ k. omega (arith, affected-insert (file_of k) s.user_files row, c.counted k);
    })
    | inr t ↦ rw t refl
  ]
    where
      row : UserFile
      row = record f { id = s.next_file_id; created_at = s.clock }

  -- An update of files that leaves keys and contents alone.
  pub update_files-Balanced :
      (p : UserFile → Bool) (g : UserFile → UserFile) (s : Store E)
      → ((f : UserFile) → (g f).id ≡ f.id)
      → ((f : UserFile) → (g f).object_id ≡ f.object_id)
      → IsConsistent s
      → IsConsistent (record s { user_files = update_where p g s.user_files })
  update_files-Balanced p g s same_id same_object c = record {
    object_ids = c.object_ids;
    object_hashes = c.object_hashes;
    file_ids = update-Unique ◌==◌ ==_iff file_id p g s.user_files same_id c.file_ids;
    object_fresh = c.object_fresh;
    file_fresh = λ k later.
        find_where-update_none ◌==◌ ==_iff file_id k p g s.user_files same_id
          (c.file_fresh k later);
    counted = λ k.
        ap (λ n. n + 0)
          (affected-update (file_of k) p g s.user_files (λ f. ap (λ o. refers o k) (same_object f)))
        ∙ c.counted k;
  }

  -- A new content, for a hash that no content has.
  pub insert_object-Balanced :
      (hash path : String) (size : ℕ) (content_type : String) (s : Store E)
      → IsConsistent s
      → IsConsistent (insert_object hash path size content_type s).1
  unfolding insert_object
  insert_object-Balanced hash path size content_type s c =
      elim (Option-cases (find_where (has_hash hash) s.objects)) [
        | inr (o, e) ↦ rw e c
        | inl e ↦ rw e (record {
          object_ids =
              insert-Unique ◌==◌ ==_iff object_id s.objects row
                (c.object_fresh s.next_object_id (omega arith)) c.object_ids;
          object_hashes = insert-Unique str_eq eq_iff object_hash s.objects row e c.object_hashes;
          file_ids = c.file_ids;
          object_fresh = fresh-insert object_id s.objects row s.next_object_id c.object_fresh refl;
          file_fresh = c.file_fresh;
          counted = λ k. c.counted k ∙ ap (λ n. n + 0) (sym (count_of-insert s.objects row k refl));
        })
      ]
    where
      row : FileObject
      row = record {
        id = s.next_object_id;
        file_hash = hash;
        storage_path = path;
        size = size;
        content_type = content_type;
        reference_count = 0;
        created_at = s.clock;
      }

  -- The missing count of a content is made up, if there is such a content.
  pub add_reference-Balanced :
      (object : ℕ) (s : Store E)
      → Balanced (some object) none s
      → ¬ (affected (object_has_id object) s.objects ≡ 0)
      → IsConsistent (update_objects (object_has_id object) one_reference_more s).1
  unfolding update_objects
  add_reference-Balanced object s c there =
      elim (Option-cases (find_where (object_has_id object) s.objects)) [
        | inl e ↦ absurd (there (affected-zero (object_has_id object) s.objects e))
        | inr (o, e) ↦ record {
          object_ids =
              update-Unique ◌==◌ ==_iff object_id (object_has_id object) one_reference_more
                s.objects (λ o. refl) c.object_ids;
          object_hashes =
              update-Unique str_eq eq_iff object_hash (object_has_id object) one_reference_more
                s.objects (λ o. refl) c.object_hashes;
          file_ids = c.file_ids;
          object_fresh = λ k later.
              find_where-update_none ◌==◌ ==_iff object_id k (object_has_id object)
                one_reference_more s.objects (λ o. refl) (c.object_fresh k later);
          file_fresh = c.file_fresh;
          counted = λ k. omega (arith, c.counted k, count_of-more object k s.objects o e);
        }
      ]
