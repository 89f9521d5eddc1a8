-- ===== src/Providers/Gateway/Replay.antt =====
-- What ProviderGateway remembers under an idempotency key, and what its pruning leaves
-- (agent/travel_agent/providers/gateway.py).
use route_pilot.Common.{
  ℕ, ◌+◌, ◌<◌, String, ◌≡◌, refl, ap, ◌∙◌, Bool, true, Option, some, List, [], ◌∷◌, arith, ltb,
  if◌then◌else◌, keep,
}
use route_pilot.Common.Eq.{Equality, ◌==◌, ==_refl, text_equality, pair_eq, triple_eq}
use route_pilot.Common.Dict.{Dict, lookup, lookup-insert}
use route_pilot.Common.Exec.{ok, err}
use route_pilot.Providers.Gateway.Types.{
  idempotency_conflict, GatewayPolicy, CacheSettings, Capability, ProviderResult, IdempotencyEntry,
  OperationKey, Gateway,
}
use route_pilot.Providers.Gateway.Circuit.{Key, set_window}
use route_pilot.Providers.Gateway.Cache.{
  store_idempotency_locked, remember_success, with_current_freshness,
}
use route_pilot.Providers.Gateway.Prune.{
  drop_window, keep_window, prune_window, prune_windows, prune_cached, prune_state, answer_prior,
  answer_locally,
}

lookup-keep :
    {K V : Type 0} ⦃e : Equality K⦄ (p : V → Bool) (key : K) (value : V) (d : Dict K V)
    → lookup key d ≡ some value
    → p value ≡ true
    → lookup key (keep (λ (entry : K × V). p entry.1) d) ≡ some value
unfolding lookup keep
lookup-keep p key value [] h good = absurd (ground arith)
lookup-keep p key value ((at, held) ∷ d) h good = ground (arith, h, good, lookup-keep p key value d)

-- Pruning the windows leaves what is remembered alone.
remembered-keep_window :
    (key : Key) (times : List ℕ) (g : Gateway)
    → ((keep_window key times g).cache ≡ g.cache)
      × ((keep_window key times g).idempotency ≡ g.idempotency)
unfolding keep_window drop_window set_window
remembered-keep_window key [] g = (refl, refl)
remembered-keep_window key (t ∷ times) g = (refl, refl)

pub remembered-prune_windows :
    (span now : ℕ) (d : Dict Key (List ℕ)) (g : Gateway)
    → ((prune_windows span now d g).cache ≡ g.cache)
      × ((prune_windows span now d g).idempotency ≡ g.idempotency)
unfolding prune_windows prune_window
remembered-prune_windows span now [] g = (refl, refl)
remembered-prune_windows span now ((key, _) ∷ rest) g =
    let (cached, replies) = remembered-prune_windows span now rest (prune_window span now key g) in
    let (cached', replies') = remembered-keep_window key _ g in
    (cached ∙ cached', replies ∙ replies')

pub prune_state-prior :
    (policy : GatewayPolicy) (key : OperationKey) (entry : IdempotencyEntry) (now : ℕ) (g : Gateway)
    → lookup key g.idempotency ≡ some entry
    → now < entry.expires_at
    → lookup key (prune_state policy now g).idempotency ≡ some entry
unfolding prune_state prune_cached
prune_state-prior policy key entry now g found early =
    ap (lookup key)
      (remembered-prune_windows policy.rate_limit_window now g.rate_windows (prune_cached now g)).1
    ∙ lookup-keep (λ (e : IdempotencyEntry). ltb now e.expires_at) key entry g.idempotency found
        (ground (arith, early))

pub stored-reply :
    (settings : CacheSettings) (capability : Capability) (hash : String) (cached : Option String)
    (key : OperationKey) (result : ProviderResult) (now wall : ℕ) (g : Gateway)
    → lookup key
        (remember_success settings capability hash cached
          (some key)
          result
          now
          wall
          g).1.idempotency
      ≡ some (record {
        request_hash = hash;
        result = result;
        expires_at = now + settings.idempotency_ttl;
      })
unfolding remember_success store_idempotency_locked
stored-reply settings capability hash cached key result now wall g =
    rw (lookup-insert, ==_refl key) refl

pub answer-prior :
    (policy : GatewayPolicy) (settings : CacheSettings) (cached : Option String)
    (key : OperationKey) (hash : String) (entry : IdempotencyEntry) (now wall : ℕ) (g : Gateway)
    → lookup key (prune_state policy now g).idempotency ≡ some entry
    → answer_locally policy settings cached (some key) hash now wall g ≡ (
      (if entry.request_hash == hash
          then ok (some (with_current_freshness entry.result wall))
          else err idempotency_conflict),
      prune_state policy now g,
    )
unfolding answer_locally answer_prior
answer-prior policy settings cached key hash entry now wall g found = rw found (ground arith)
