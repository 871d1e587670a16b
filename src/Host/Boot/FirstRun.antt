-- ===== src/Host/Boot/FirstRun.antt =====
-- The first start of a node, whose identity file is not there yet.
use didem.Base.{
  true, false, none, some, List, [], ◌∷◌, ok, err, wrap, not_found, Bool-cases, if◌then◌else◌, inl,
  inr, ◌≡◌, refl,
}
use didem.Tx.{Bytes}
use didem.Host.Boot.{
  IdentityFile, BootEnv, NodeOption, with_storage, with_identity_store, with_default_options,
  get_identity, set_options, has_default, new_node,
}

module _ (env : BootEnv) where
  default_fails :
      (opts : List NodeOption)
      → has_default env opts ≡ true
      → set_options env opts none ≡ (err (wrap (wrap not_found)), none)
  unfolding set_options
  default_fails [] h = cc
  default_fails (with_storage ∷ opts) h = default_fails opts h
  default_fails (with_identity_store ∷ opts) h = default_fails opts h
  default_fails (with_default_options ∷ opts) h = refl

  others_pass :
      (opts : List NodeOption) (f : IdentityFile)
      → has_default env opts ≡ false
      → set_options env opts f ≡ (ok tt, f)
  unfolding set_options
  others_pass [] f h = refl
  others_pass (with_storage ∷ opts) f h = others_pass opts f h
  others_pass (with_identity_store ∷ opts) f h = others_pass opts f h
  others_pass (with_default_options ∷ opts) f h = cc

  made :
      (b : Bytes)
      → env.stat_error ≡ none
      → env.new_key ≡ ok b
      → env.mkdir ≡ ok tt
      → env.write_error ≡ none
      → get_identity env none ≡ get_identity env (some b)
  unfolding get_identity
  made b stat key dir write = rw (stat, key, dir, write) refl

  -- With the default options, as the daemon has them, a node never comes up on its first start: they
  -- read the identity before it is made, and the file is still missing afterwards. Without them, where
  -- nothing fails in making it, the start is the one of a node whose new identity is in its file.
  pub new_node-first_run :
      (opts : List NodeOption) (b : Bytes)
      → env.stat_error ≡ none
      → env.new_key ≡ ok b
      → env.mkdir ≡ ok tt
      → env.write_error ≡ none
      → new_node env opts none ≡ (
          if has_default env opts
          then (err (wrap (wrap not_found)), none)
          else new_node env opts (some b))
  unfolding new_node
  new_node-first_run opts b stat key dir write = elim (Bool-cases (has_default env opts)) [
    | inl default ↦ rw (default, default_fails opts default) refl
    | inr others ↦
        rw
          (
            others,
            others_pass opts none others,
            others_pass opts (some b) others,
            made b stat key dir write,
          )
          refl
  ]
