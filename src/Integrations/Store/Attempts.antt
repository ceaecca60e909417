-- ===== src/Integrations/Store/Attempts.antt =====
-- The setup attempts, redemptions and webhook deliveries of the integrations service's memory store
-- (adapters/memory.py), which count once.
use mvp_master.Base.{
  String, ◌≡◌, true, false, ◌&&◌, none, some, ◌==◌, nat_eq, string_eq, pair_eq, arith, is_some, ltb,
  if◌then◌else◌, eq_refl,
}
use mvp_master.Dict.{put, get-put_self}
use mvp_master.Contracts.{Uuid, Time}
use mvp_master.Integrations.Store.{
  Store, create_platform_setup_attempt, consume_platform_setup_attempt,
  create_connector_setup_attempt, consume_connector_setup_attempt, redeem_source_capability,
  record_webhook_delivery, ConnectorSetup, PlatformSetup,
}

-- A state hash that has just been issued to a person for a configuration is accepted exactly from that person
-- before its time is over, and gives the configuration then; after it was accepted it is refused,
-- whoever asks and whenever. Both for the platform's attempts and for the connectors'.
pub setup_attempt_once :
    (o configuration : Uuid) (hash owner actor again : String) (expires now later : Time)
    (s : Store)
    → let issued = create_connector_setup_attempt o hash owner configuration expires s in
      let (answer, s1) = consume_connector_setup_attempt o hash actor now issued in
      let issued' = create_platform_setup_attempt hash owner expires s in
      let (answer', s1') = consume_platform_setup_attempt hash actor now issued' in
      (answer ≡ (if owner == actor && ltb now expires then some configuration else none))
      × (answer' ≡ (owner == actor && ltb now expires))
      × (is_some answer ≡ true → consume_connector_setup_attempt o hash again later s1 ≡ (none, s1))
      × (answer' ≡ true → consume_platform_setup_attempt hash again later s1' ≡ (false, s1'))
unfolding create_connector_setup_attempt create_platform_setup_attempt
    consume_connector_setup_attempt consume_platform_setup_attempt
setup_attempt_once o configuration hash owner actor again expires now later s =
    let a : ConnectorSetup = record {
      actor_subject = owner;
      configuration_id = configuration;
      expires_at = expires;
      used = false;
    } in
    let b : PlatformSetup = record { actor_subject = owner; expires_at = expires; used = false } in
    let key : Uuid × String = (o, hash) in
    let c = put s.connector_setup_attempts key a in
    let p = put s.platform_setup_attempts hash b in
    ground (
      arith,
      get-put_self s.connector_setup_attempts key a,
      get-put_self c key (record a { used = true }),
      get-put_self s.platform_setup_attempts hash b,
      get-put_self p hash (record b { used = true }),
    )

-- The first redemption of a capability and the first delivery of a webhook are answered yes and every
-- further one is answered no, with nothing changed; another organization's capability, or another provider's delivery, is not affected.
pub replay_refused :
    (o o' : Uuid) (capability capability' provider provider' delivery delivery' : String)
    (s : Store)
    → let (first, s1) = redeem_source_capability o capability s in
      let (seen, s2) = record_webhook_delivery provider delivery s in
      (redeem_source_capability o capability s1 ≡ (false, s1))
      × (record_webhook_delivery provider delivery s2 ≡ (false, s2))
      × ((o == o' && capability == capability') ≡ false
          → (redeem_source_capability o' capability' s1).0
            ≡ (redeem_source_capability o' capability' s).0)
      × ((provider == provider' && delivery == delivery') ≡ false
          → (record_webhook_delivery provider' delivery' s2).0
            ≡ (record_webhook_delivery provider' delivery' s).0)
unfolding redeem_source_capability record_webhook_delivery
replay_refused o o' capability capability' provider provider' delivery delivery' s = ground (
  arith,
  eq_refl o,
  eq_refl capability,
  eq_refl provider,
  eq_refl delivery,
  nat_eq.beq_iff o o',
  nat_eq.beq_iff o' o,
  string_eq.beq_iff capability capability',
  string_eq.beq_iff capability' capability,
  string_eq.beq_iff provider provider',
  string_eq.beq_iff provider' provider,
  string_eq.beq_iff delivery delivery',
  string_eq.beq_iff delivery' delivery,
)
