-- ===== src/Audit/Tamper.antt =====
-- The head hash commits to the history, as far as the digest is free of collisions.
use jewelry_backend.Common.{◌≡◌, ◌≢◌, refl, ap, ap₂, sym, ◌∙◌, List, [], ◌∷◌, String, ok, length}
use jewelry_backend.Audit.{Row, IsChain, last_hash, genesis_hash, verify_chain, clean_report}
use jewelry_backend.Audit.Walk.{verify_chain_iff}

module _ {F : Type 0} where
  -- The hashed events of the rows, the newest first, put before those of `older`.
  newest_onto : List (Row F) → List F → List F
  newest_onto [] older = older
  newest_onto (row ∷ rows) older = newest_onto rows (row.fields ∷ older)

  unfoldable pub newest_first : List (Row F) → List F
  unfolding newest_onto
  newest_first rows = newest_onto rows []

  module _ (digest : String → F → String) where
    -- The hash that a history, the newest event first, must end in.
    hash_of : List F → String
    hash_of [] = genesis_hash
    hash_of (f ∷ older) = digest (hash_of older) f

    last_hash-chain :
        (rows : List (Row F)) (older : List F) (prev : String)
        → prev ≡ hash_of older
        → IsChain digest prev rows
        → last_hash digest prev rows ≡ hash_of (newest_onto rows older)
    unfolding newest_onto hash_of
    last_hash-chain [] older prev e h = e
    last_hash-chain (row ∷ rows) older prev e h =
        last_hash-chain rows (row.fields ∷ older) row.entry_hash
          (h.1 ∙ ap (λ (p : String). digest p row.fields) e) h.2

    module _
        (collision_free : (p q : String) (f g : F) → digest p f ≡ digest q g → (p ≡ q) × (f ≡ g))
        (genesis_free : (p : String) (f : F) → digest p f ≢ genesis_hash) where
      hash_of-injective : (fs gs : List F) → hash_of fs ≡ hash_of gs → fs ≡ gs
      unfolding hash_of
      hash_of-injective [] [] e = refl
      hash_of-injective [] (g ∷ gs) e = absurd (genesis_free _ g (sym e))
      hash_of-injective (f ∷ fs) [] e = absurd (genesis_free _ f e)
      hash_of-injective (f ∷ fs) (g ∷ gs) e =
          let split = collision_free (hash_of fs) (hash_of gs) f g e in
          ap₂ ◌∷◌ split.1 (hash_of-injective fs gs split.0)

      chains_same_events :
          (rows other : List (Row F))
          → IsChain digest genesis_hash rows
          → IsChain digest genesis_hash other
          → last_hash digest genesis_hash rows ≡ last_hash digest genesis_hash other
          → newest_first rows ≡ newest_first other
      unfolding newest_first hash_of
      chains_same_events rows other h k e =
          hash_of-injective (newest_onto rows []) (newest_onto other []) (
            sym (last_hash-chain rows [] genesis_hash refl h)
            ∙ e
            ∙ last_hash-chain other [] genesis_hash refl k)

      -- Of a digest without collisions, that is never empty nor the genesis hash: two lists of rows
      -- that the walk reports clean and that end in one hash hold the same events in the same order,
      -- whatever their lengths.
      pub same_head_same_events :
          ((p : String) (f : F) → digest p f ≢ "")
          → (rows other : List (Row F)) → verify_chain digest rows ≡ ok (clean_report (length rows))
          → verify_chain digest other ≡ ok (clean_report (length other))
          → last_hash digest genesis_hash rows ≡ last_hash digest genesis_hash other
          → newest_first rows ≡ newest_first other
      same_head_same_events nonempty rows other h k e =
          chains_same_events rows other ((verify_chain_iff digest nonempty rows).0 h)
            ((verify_chain_iff digest nonempty other).0 k) e
