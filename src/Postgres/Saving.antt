-- ===== src/Postgres/Saving.antt =====
-- pkg/storage/postgres/store.go: `SaveGPU` and the `GetGPU` that follows, and `initSchema`.
use elastic_gpu_telemetry_pi.Common.{
  ◌≡◌, refl, sym, ap, subst, ◌∙◌, ◌⊎◌, inl, inr, false, Option, none, some, List, [], ◌∷◌, map,
  arith, Text, is_empty, ok, err, if◌then◌else◌, Bool-cases,
}
use elastic_gpu_telemetry_pi.Domain.{Gpu}
use elastic_gpu_telemetry_pi.Postgres.{
  text_value, is_equal, upsert, select, Database, query_failed, invalid_gpu_uuid, gpu_arguments,
  save_gpu_statement, scan_gpu, scan_one, saved, save_gpu, get_gpu,
}

-- A database that keeps what it is given: after an upsert that succeeds and updates every column but the
-- key, the row of this key has the texts of the upsert, in every answer.
pub record IsKeeping {D : Type 0} (db : Database D) : Type 0 where
  pub kept :
      (table key : Text) (details stamped : List Text) (k : Text) (texts : List Text) (d d' : D)
      → db.executes
          (upsert table (key ∷ details) (key ∷ []) details stamped)
          (text_value k ∷ map text_value texts)
          d
        ≡ (d', none)
      → (db.queries (select table (key ∷ details) (is_equal key 1 ∷ []) []) (text_value k ∷ []) d'
          ≡ ok ((text_value k ∷ map text_value texts) ∷ [], none))
        ⊎ ((e : Text) × (db.queries
                (select table (key ∷ details) (is_equal key 1 ∷ []) [])
                (text_value k ∷ [])
                d'
              ≡ err e))

abbrev gpu_texts : Gpu → List Text
gpu_texts g = g.gpu_id ∷ g.device ∷ g.model ∷ g.hostname ∷ g.container ∷ g.pod ∷ g.namespace ∷ []

module _ {D : Type 0} (db : Database D) (keeping : IsKeeping db) where
  -- The GPU is read, or the query fails.
  abbrev pub IsRead : Gpu → D → Type 0
  IsRead g d =
      (get_gpu db g.uuid d ≡ ok (some g))
      ⊎ ((e : Text) × (get_gpu db g.uuid d ≡ err (query_failed e)))

  executed-IsRead :
      (g : Gpu) (d : D) (r : D × Option Text)
      → is_empty g.uuid ≡ false
      → db.executes save_gpu_statement (gpu_arguments g) d ≡ r
      → (saved r).1 ≡ none
      → IsRead g (saved r).0
  unfolding get_gpu scan_gpu
  executed-IsRead g d (t, some e) named done n = absurd (ground arith)
  executed-IsRead g d (t, none) named done n =
      elim (keeping.kept _ _ _ _ g.uuid (gpu_texts g) d t done) [
        | inl answered ↦ inl (rw named (ap scan_one answered))
        | inr (e, failed) ↦ inr (e, rw named (ap scan_one failed))
      ]

  -- Over a database that keeps what it is given, a GPU whose save succeeds is read back by `GetGPU` as
  -- it was saved, each field from the column it was saved to, unless the query fails.
  pub get_gpu-save_gpu :
      (g : Gpu) (d : D) → (save_gpu db (some g) d).1 ≡ none → IsRead g (save_gpu db (some g) d).0
  unfolding save_gpu
  get_gpu-save_gpu g d h = elim (Bool-cases (is_empty g.uuid)) [
    | inl missing ↦ absurd (ground (arith, h, missing))
    | inr named ↦
        subst (λ r. IsRead g r.0) (sym (written named))
          (executed-IsRead g d _ named refl (ap (λ r. r.1) (sym (written named)) ∙ h))
  ]
    where
      written :
          is_empty g.uuid ≡ false
          → (if is_empty g.uuid
              then (d, some invalid_gpu_uuid)
              else saved (db.executes save_gpu_statement (gpu_arguments g) d))
            ≡ saved (db.executes save_gpu_statement (gpu_arguments g) d)
      written named = rw named refl
