-- ===== src/Execute/Keys.antt =====
-- The viewing keys and the revocations of permits of src/execute.rs.
use snip20_reference_impl.Common.{ℕ, String, Option, ◌++◌}
use snip20_reference_impl.Outcome.{unwrap_or}
use snip20_reference_impl.State.{M, ◌>>=◌, ◌>>◌, pure, gets, reads, modify}
use snip20_reference_impl.Execute.Types.{Env, MessageInfo}
use snip20_reference_impl.Toolkit.{Toolkit}

module _ (toolkit : Toolkit) where
  unfoldable pub try_set_key : MessageInfo → String → M (Unit {0})
  try_set_key info key =
      modify
        (λ s. record s { toolkit_items = toolkit.set_viewing_key info.sender key s.toolkit_items })

  -- The new key.
  unfoldable pub try_create_key : Env → MessageInfo → Option String → M String
  try_create_key env info entropy = do
    random ← gets (λ s. toolkit.rand_bytes s.draws)
    modify (λ s. record s { draws = random.1 })
    created ← gets (λ s.
        toolkit.create_viewing_key info env info.sender
          (toolkit.as_bytes (unwrap_or "" entropy) ++ random.0) s.toolkit_items)
    modify (λ s. record s { toolkit_items = created.1 })
    pure (created.0)

  unfoldable pub revoke_permit : MessageInfo → String → M (Unit {0})
  revoke_permit info permit_name = modify (λ s. record s {
    toolkit_items = toolkit.revoke_permit info.sender permit_name s.toolkit_items;
  })

  -- The id of the revocation.
  unfoldable pub revoke_all_permits : MessageInfo → toolkit.Interval → M ℕ
  revoke_all_permits info interval = do
    revoked ← reads (λ s. toolkit.revoke_all_permits info.sender interval s.toolkit_items)
    modify (λ s. record s { toolkit_items = revoked.1 })
    pure (revoked.0)

  unfoldable pub delete_permit_revocation : MessageInfo → String → M (Unit {0})
  delete_permit_revocation info revocation_id = do
    left ← reads (λ s. toolkit.delete_revocation info.sender revocation_id s.toolkit_items)
    modify (λ s. record s { toolkit_items = left })
