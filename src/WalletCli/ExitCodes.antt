-- ===== src/WalletCli/ExitCodes.antt =====
-- With which code the tool exits after an operation that failed.
use lp_0008_logos_agent_modu.Base.{
  ◌≡◌, refl, sym, ap, ◌∙◌, none, some, [], ◌∷◌, ◌++◌, Bool-cases, inl, inr, drop, if◌then◌else◌,
  All, ok, err, Text, lit,
}
use lp_0008_logos_agent_modu.Keys.{Sha256, Base58}
use lp_0008_logos_agent_modu.Keystore.Crates.{Crypto}
use lp_0008_logos_agent_modu.Std.Strings.{as_bytes, IsScalar}
use lp_0008_logos_agent_modu.AgentCli.JsonStr.Decode.{read_literal}
use lp_0008_logos_agent_modu.Provider.Crates.{Json, HexCodec, Identity, Wallet}
use lp_0008_logos_agent_modu.Provider.{ProviderError}
use lp_0008_logos_agent_modu.Provider.World.{Act}
use lp_0008_logos_agent_modu.Ffi.{envelope, State}
use lp_0008_logos_agent_modu.Ffi.Exports.{result_text}
use lp_0008_logos_agent_modu.Ffi.Envelope.{
  is_printable, read_literal-envelope, envelope-drop, envelope-drop_quote, drop-envelope,
  cstring-envelope,
}
use lp_0008_logos_agent_modu.WalletCli.{Cmd, wrap_ok, emit, main}
use lp_0008_logos_agent_modu.WalletCli.Clean.{args_of}
use lp_0008_logos_agent_modu.WalletCli.Promise.{
  HasNoNul, Style, wrapped, bare, line_of, printing, plan, promise, main-Fulfils,
}

-- `serde_json` reads an object whose one field is `error` with a string, and refuses it if what
-- begins with a quotation mark there is no string.
pub record ReadsErrors (j : Json) : Type 0 where
  pub valid :
      (s msg : Text)
      → All IsScalar msg
      → read_literal s ≡ some (msg, lit "}")
      → (v : j.Value) × (e : j.Value) × (j.from_slice (as_bytes (lit "{\"error\": " ++ s)) ≡ ok v)
        × (j.get (lit "error") v ≡ some e)
  pub invalid :
      (s : Text)
      → read_literal (b'"' ∷ s) ≡ none
      → (e : Text) × (j.from_slice (as_bytes (lit "{\"error\": \"" ++ s)) ≡ err e)

line_of-envelope : (style : Style) (msg : Text) → line_of style (envelope msg) ≡ envelope msg
unfolding wrap_ok envelope
line_of-envelope wrapped msg = refl
line_of-envelope bare msg = refl

module _ (j : Json) where
  emit_found :
      (line : Text) {v e : j.Value}
      → j.from_slice (as_bytes line) ≡ ok v
      → j.get (lit "error") v ≡ some e
      → emit j line ≡ 1
  unfolding emit
  emit_found line h k = rw (emit, h) (rw k refl)

  emit_refused : (line : Text) {e : Text} → j.from_slice (as_bytes line) ≡ err e → emit j line ≡ 0
  unfolding emit
  emit_refused line h = rw (emit, h) refl

module _ (j : Json) (reads : ReadsErrors j) where
  emit-envelope :
      (msg : Text) → All IsScalar msg → emit j (envelope msg) ≡ (if is_printable msg then 1 else 0)
  emit-envelope msg scalars = elim (Bool-cases (is_printable msg)) [
    | inl h ↦
        let (v, e, parsed, found) =
          reads.valid (drop 10 (envelope msg)) msg scalars
            ((read_literal-envelope msg).1 ∙ rw h refl) in
        ap (emit j) (envelope-drop msg) ∙ emit_found j _ parsed found ∙ rw h refl
    | inr h ↦
        let (e, parsed) =
          reads.invalid (drop 11 (envelope msg)) (
            ap read_literal (sym (drop-envelope msg))
            ∙ (read_literal-envelope msg).1
            ∙ rw h refl) in
        ap (emit j) (envelope-drop_quote msg) ∙ emit_refused j _ parsed ∙ rw h refl
  ]

  -- If the operation of a subcommand fails, the tool prints the error envelope of the message. It
  -- exits with 1 if the message has no control character, but with 0 if it has one, as the envelope
  -- is no JSON then. This holds for messages and arguments without nul characters, for all
  -- subcommands but `sync`.
  pub main_error-exit :
      (display : ProviderError → Text) (hex : HexCodec) {i : Identity} (lez : Wallet i) (c : Crypto)
      (sha : Sha256) (b58 : Base58) (entropy : lez.Entropy) (rng : c.Rng) (cmd : Cmd) (st : State i)
      {style : Style} {op : Act i Text} {e : ProviderError}
      → plan j display hex lez c sha b58 entropy rng cmd ≡ printing style op
      → (op st.world).0 ≡ err e
      → HasNoNul (display e)
      → All IsScalar (display e)
      → All HasNoNul (args_of cmd)
      → (after : State i) × (main j display hex i lez c sha b58 entropy rng cmd st
          ≡ some ((if is_printable (display e) then 1 else 0), envelope (display e) ∷ [], after))
  main_error-exit display hex {i} lez c sha b58 entropy rng cmd st {style} {op} {e} p fails nul
        scalars h =
      let (after, ended, world, live, whole) =
        main-Fulfils j display hex lez c sha b58 entropy rng cmd st h in
      let line : line_of style (result_text display (op st.world).0) ≡ envelope (display e) =
        ap (λ r. line_of style (result_text display r)) fails
        ∙ ap (line_of style) (cstring-envelope (display e) nul)
        ∙ line_of-envelope style (display e) in
      let kept : (promise j display (plan j display hex lez c sha b58 entropy rng cmd) st.world).0
          ≡ ((if is_printable (display e) then 1 else 0), envelope (display e)) =
        ap (λ q. (promise j display q st.world).0) p
        ∙ ap (λ t. (emit j t, t)) line
        ∙ ap (λ n. (n, envelope (display e))) (emit-envelope (display e) scalars) in
      (after, ended ∙ ap (λ q. some (q.0, q.1 ∷ [], after)) kept)
