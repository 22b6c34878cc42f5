-- ===== src/Services/Contexts.antt =====
-- The contexts of the services: how the bytes that are hashed for them begin.
use lp_0005_private_token_ba.Prelude.{
  ◌≡◌, ◌⊎◌, inl, inr, refl, sym, ap, ◌∙◌, List, [], ◌∷◌, Bytes, codes, concat, bytes_eq,
  bytes_eq_ne, false, length,
}
use mathlib.Core.Logic.{⊎_map}
use lp_0005_private_token_ba.Crypto.{
  Sha256, hash_parts, Collision, hash_parts-binding, hash_parts-prefixes, or_collision_map,
}
use lp_0005_private_token_ba.Chat.{group_context_id}
use lp_0005_private_token_ba.Chat.Members.{group_context_id-injective}
use lp_0005_private_token_ba.Nostr.{context_id_for_relay}
use lp_0005_private_token_ba.Nostr.Reply.{context_id_for_relay-injective}
use lp_0005_private_token_ba.Premium.{context_id, tier_name}
use lp_0005_private_token_ba.Premium.Sessions.{context_id-injective}
use lp_0005_private_token_ba.Cli.{context_id_from}
use lp_0005_private_token_ba.Governance.{governance_context_id}
use lp_0005_private_token_ba.Services.{
  Service, group, relay, tier, label, governance, service_context, Broken,
}

-- The first bytes of what is hashed for a service, and the rest.
abbrev mark : Service → Bytes
mark (group g) = codes "/lp-0005/integ/c"
mark (relay r) = codes "nostr-auth-gate/"
mark (tier t) = codes "/lp-0005/integ/p"
mark (label l) = codes "/lp-0005/v0.1/co"
mark governance = []

abbrev after_mark : Service → List Bytes
after_mark (group g) = codes "hat-gate-v1/" ∷ g ∷ []
after_mark (relay r) = codes "v1/" ∷ r ∷ []
after_mark (tier t) = codes "remium-features-v1/tier/" ∷ tier_name t ∷ []
after_mark (label l) = codes "ntext/" ∷ l ∷ []
after_mark governance = []

-- The context is a digest.
abbrev Hashed : Service → Type 0
Hashed (group g) = Unit {0}
Hashed (relay r) = Unit {0}
Hashed (tier t) = Unit {0}
Hashed (label l) = Unit {0}
Hashed governance = ⊥

-- Both contexts are digests, of inputs that begin differently.
abbrev MarkedApart : Service → Service → Type 0
MarkedApart s s' =
    Hashed s
    × Hashed s'
    × (bytes_eq (mark s) (mark s') ≡ false)
    × (length (mark s) ≡ length (mark s'))

module _ (sha : Sha256) where
  abbrev marked : Service → Bytes
  marked s = hash_parts sha (mark s ∷ after_mark s)

  -- A hashed context is the digest of its mark and the rest.
  context-marked : (s : Service) → Hashed s → service_context sha s ≡ marked s
  unfolding service_context group_context_id context_id_for_relay context_id context_id_from
      hash_parts
  context-marked (group g) hashed = refl
  context-marked (relay r) hashed = refl
  context-marked (tier t) hashed = refl
  context-marked (label l) hashed = refl
  context-marked governance hashed = absurd hashed

  context_id_from-injective :
      (l l' : Bytes) → context_id_from sha l ≡ context_id_from sha l' → (l ≡ l') ⊎ Collision sha
  unfolding context_id_from
  context_id_from-injective l l' e =
      or_collision_map (hash_parts-binding sha _ _ (refl, tt) e) λ same. cc same

  governed : (s : Service) → Hashed s → service_context sha s ≡ governance_context_id → Broken sha
  unfolding hash_parts
  governed s hashed e = inr (concat (mark s ∷ after_mark s), sym (context-marked s hashed) ∙ e)

  marks_differ :
      (s s' : Service)
      → MarkedApart s s'
      → service_context sha s ≡ service_context sha s'
      → Broken sha
  marks_differ s s' (hashed, hashed', differ, long) e = inl (
      hash_parts-prefixes sha (mark s) (mark s') (after_mark s) (after_mark s') long
        (bytes_eq_ne _ _ differ) (sym (context-marked s hashed) ∙ e ∙ context-marked s' hashed'))

  -- Different services expect different contexts, unless the hash is broken.
  pub service_context-injective :
      (s s' : Service) → service_context sha s ≡ service_context sha s' → (s ≡ s') ⊎ Broken sha
  unfolding service_context bytes_eq
  service_context-injective (group g) (group g') e =
      ⊎_map (ap group) inl (group_context_id-injective sha g g' e)
  service_context-injective (relay r) (relay r') e =
      ⊎_map (ap relay) inl (context_id_for_relay-injective sha r r' e)
  service_context-injective (tier t) (tier t') e =
      ⊎_map (ap tier) inl (context_id-injective sha t t' e)
  service_context-injective (label l) (label l') e =
      ⊎_map (ap label) inl (context_id_from-injective l l' e)
  service_context-injective governance governance e = inl refl
  service_context-injective (group g) (relay r) e =
      inr (marks_differ (group g) (relay r) (tt, tt, refl, refl) e)
  service_context-injective (group g) (tier t) e =
      inr (marks_differ (group g) (tier t) (tt, tt, refl, refl) e)
  service_context-injective (group g) (label l) e =
      inr (marks_differ (group g) (label l) (tt, tt, refl, refl) e)
  service_context-injective (relay r) (group g) e =
      inr (marks_differ (relay r) (group g) (tt, tt, refl, refl) e)
  service_context-injective (relay r) (tier t) e =
      inr (marks_differ (relay r) (tier t) (tt, tt, refl, refl) e)
  service_context-injective (relay r) (label l) e =
      inr (marks_differ (relay r) (label l) (tt, tt, refl, refl) e)
  service_context-injective (tier t) (group g) e =
      inr (marks_differ (tier t) (group g) (tt, tt, refl, refl) e)
  service_context-injective (tier t) (relay r) e =
      inr (marks_differ (tier t) (relay r) (tt, tt, refl, refl) e)
  service_context-injective (tier t) (label l) e =
      inr (marks_differ (tier t) (label l) (tt, tt, refl, refl) e)
  service_context-injective (label l) (group g) e =
      inr (marks_differ (label l) (group g) (tt, tt, refl, refl) e)
  service_context-injective (label l) (relay r) e =
      inr (marks_differ (label l) (relay r) (tt, tt, refl, refl) e)
  service_context-injective (label l) (tier t) e =
      inr (marks_differ (label l) (tier t) (tt, tt, refl, refl) e)
  service_context-injective (group g) governance e = inr (governed (group g) tt e)
  service_context-injective governance (group g) e = inr (governed (group g) tt (sym e))
  service_context-injective (relay r) governance e = inr (governed (relay r) tt e)
  service_context-injective governance (relay r) e = inr (governed (relay r) tt (sym e))
  service_context-injective (tier t) governance e = inr (governed (tier t) tt e)
  service_context-injective governance (tier t) e = inr (governed (tier t) tt (sym e))
  service_context-injective (label l) governance e = inr (governed (label l) tt e)
  service_context-injective governance (label l) e = inr (governed (label l) tt (sym e))
