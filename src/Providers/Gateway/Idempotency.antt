-- ===== src/Providers/Gateway/Idempotency.antt =====
-- How long ProviderGateway answers from what it remembers, and to whom
-- (agent/travel_agent/providers/gateway.py).
use route_pilot.Common.{
  ℕ, ◌+◌, ◌<◌, String, ◌≡◌, ◌≢◌, refl, ap, sym, ◌∙◌, Option, none, some, List, [], ◌∷◌, arith,
  if◌then◌else◌, length, Bool-cases, inl, inr, ltb,
}
use route_pilot.Common.Eq.{◌==◌, ==_iff, text_equality, pair_eq, triple_eq}
use route_pilot.Common.Dict.{Dict, lookup, lookup-insert}
use route_pilot.Common.Exec.{ok, err}
use route_pilot.Providers.Gateway.Types.{
  idempotency_conflict, GatewayPolicy, CacheSettings, Capability, ProviderResult, IdempotencyEntry,
  OperationKey, Gateway,
}
use route_pilot.Providers.Gateway.Cache.{
  make_room, store_idempotency_locked, cache_result, put_cached, remember_success,
  with_current_freshness, reply, get_stale_fallback, find_cached, stale_entry,
}
use route_pilot.Providers.Gateway.Prune.{
  prune_cached, prune_state, answer_prior, answer_locally, find_prior, fresh_entry,
}
use route_pilot.Providers.Gateway.Replay.{
  remembered-prune_windows, prune_state-prior, stored-reply, answer-prior,
}
use route_pilot.Providers.Gateway.Room.{length-keep}

-- What happens in the gateway between two calls under one key.
pub data Operation : Type 0 where
  remembers :
      Capability → String → Option String → Option OperationKey → ProviderResult → ℕ → ℕ → Operation
  asks : Option String → Option OperationKey → String → ℕ → ℕ → Operation
  falls_back : Capability → String → Option String → Option OperationKey → ℕ → Operation

module _ (policy : GatewayPolicy) (settings : CacheSettings) where
  unfoldable pub after_operation : Operation → Gateway → Gateway
  unfolding remember_success answer_locally get_stale_fallback
  after_operation (remembers capability hash cached key result now wall) g =
      (remember_success settings capability hash cached key result now wall g).1
  after_operation (asks cached key hash now wall) g =
      (answer_locally policy settings cached key hash now wall g).1
  after_operation (falls_back capability hash cached key now) g =
      (get_stale_fallback settings capability hash cached key now g).1

  unfoldable pub run_operations : List Operation → Gateway → Gateway
  unfolding after_operation
  run_operations [] g = g
  run_operations (o ∷ os) g = run_operations os (after_operation o g)

  -- There is room for another reply.
  abbrev pub HasRoom : Gateway → Type 0
  HasRoom g = length g.idempotency < settings.max_idempotency_entries

  -- An operation under another key finds room, and no pruning comes after the entry expires.
  abbrev pub Spares : OperationKey → ℕ → Gateway → Operation → Type 0
  Spares key until g (remembers capability hash cached other result now wall) =
      (some key ≢ other) × HasRoom g
  Spares key until g (asks cached other hash now wall) =
      (some key ≢ other) × HasRoom g × (now < until)
  Spares key until g (falls_back capability hash cached other now) = (some key ≢ other) × HasRoom g

  abbrev pub AllSpare : OperationKey → ℕ → Gateway → List Operation → Type 0
  AllSpare key until g [] = Unit
  AllSpare key until g (o ∷ os) = Spares key until g o × AllSpare key until (after_operation o g) os

  -- The entry stands under its key.
  abbrev pub Remembered : OperationKey → IdempotencyEntry → Gateway → Type 0
  Remembered key entry g = lookup key g.idempotency ≡ some entry

  make_room-free :
      (d : Dict OperationKey IdempotencyEntry)
      → length d < settings.max_idempotency_entries
      → make_room (λ (held : IdempotencyEntry). held.expires_at) settings.max_idempotency_entries d
        ≡ d
  unfolding make_room
  make_room-free [] h = refl
  make_room-free (x ∷ d) h = ground (arith, h)

  store-Remembered :
      (key : OperationKey) (entry : IdempotencyEntry) (other : Option OperationKey) (hash : String)
      (result : ProviderResult) (now : ℕ) (g : Gateway)
      → (some key ≢ other)
      → HasRoom g
      → Remembered key entry g
      → Remembered key entry (store_idempotency_locked settings other hash result now g)
  unfolding store_idempotency_locked
  store-Remembered key entry none hash result now g apart room h = h
  store-Remembered key entry (some other) hash result now g apart room h =
      elim (Bool-cases (other == key)) [
        | inl e ↦ absurd (apart (ap some (sym ((==_iff other key).0 e))))
        | inr e ↦ rw (lookup-insert, e, make_room-free g.idempotency room) h
      ]

  cached-idempotency :
      (capability : Capability) (cached : Option String) (result : ProviderResult) (now wall : ℕ)
      (g : Gateway)
      → (cache_result settings capability cached result now wall g).idempotency ≡ g.idempotency
  unfolding cache_result put_cached
  cached-idempotency capability none result now wall g = refl
  cached-idempotency capability (some at) result now wall g = ground arith

  reply-Remembered :
      (key : OperationKey) (entry : IdempotencyEntry) (other : Option OperationKey) (hash : String)
      (found : Option ProviderResult) (now : ℕ) (g : Gateway)
      → (some key ≢ other)
      → HasRoom g
      → Remembered key entry g
      → Remembered key entry (reply settings other hash found now g).1
  unfolding reply
  reply-Remembered key entry other hash none now g apart room h = h
  reply-Remembered key entry other hash (some result) now g apart room h =
      store-Remembered key entry other hash result now g apart room h

  prior-Remembered :
      (key : OperationKey) (entry : IdempotencyEntry) (cached : Option String)
      (other : Option OperationKey) (hash : String) (now wall : ℕ) (prior : Option IdempotencyEntry)
      (g : Gateway)
      → (some key ≢ other)
      → HasRoom g
      → Remembered key entry g
      → Remembered key entry (answer_prior settings cached other hash now wall prior g).1
  unfolding answer_prior
  prior-Remembered key entry cached other hash now wall none g apart room h =
      reply-Remembered key entry other hash (fresh_entry (find_cached cached g) now) now g apart
        room h
  prior-Remembered key entry cached other hash now wall (some prior) g apart room h =
      elim (Bool-cases (prior.request_hash == hash)) [ inl w ↦ rw w h | inr w ↦ rw w h ]

  prune-HasRoom : (now : ℕ) (g : Gateway) → HasRoom g → HasRoom (prune_state policy now g)
  unfolding prune_state prune_cached
  prune-HasRoom now g room =
      let (_, replies) =
        remembered-prune_windows policy.rate_limit_window now g.rate_windows (prune_cached now g) in
      omega (
        arith,
        ap (λ (d : Dict OperationKey IdempotencyEntry). length d) replies,
        length-keep (λ (entry : OperationKey × IdempotencyEntry). ltb now entry.1.expires_at)
            g.idempotency,
        room,
      )

  fallback-Remembered :
      (key : OperationKey) (entry : IdempotencyEntry) (capability : Capability) (hash : String)
      (cached : Option String) (other : Option OperationKey) (now : ℕ) (g : Gateway)
      → (some key ≢ other)
      → HasRoom g
      → Remembered key entry g
      → Remembered key entry (get_stale_fallback settings capability hash cached other now g).1
  unfolding get_stale_fallback
  fallback-Remembered key entry capability hash cached other now g apart room h =
      elim (Bool-cases (ltb 0 (settings.stale_if_error capability))) [
        | inl w ↦ rw w (
            reply-Remembered key entry other hash (stale_entry (find_cached cached g) now) now g
              apart room h)
        | inr w ↦ rw w h
      ]

  operation-Remembered :
      (key : OperationKey) (entry : IdempotencyEntry) (o : Operation) (g : Gateway)
      → Spares key entry.expires_at g o
      → Remembered key entry g
      → Remembered key entry (after_operation o g)
  unfolding after_operation remember_success answer_locally
  operation-Remembered key entry (remembers capability hash cached other result now wall) g
        (apart, room) h =
      let same = cached-idempotency capability cached result now wall g in
      store-Remembered key entry other hash result now
        (cache_result settings capability cached result now wall g) apart
        (omega (arith, room, ap (λ (d : Dict OperationKey IdempotencyEntry). length d) same))
        (ap (lookup key) same ∙ h)
  operation-Remembered key entry (asks cached other hash now wall) g (apart, room, early) h =
      prior-Remembered key entry cached other hash now wall
        (find_prior other (prune_state policy now g)) (prune_state policy now g) apart
        (prune-HasRoom now g room) (prune_state-prior policy key entry now g h early)
  operation-Remembered key entry (falls_back capability hash cached other now) g (apart, room) h =
      fallback-Remembered key entry capability hash cached other now g apart room h

  run-Remembered :
      (key : OperationKey) (entry : IdempotencyEntry) (os : List Operation) (g : Gateway)
      → AllSpare key entry.expires_at g os
      → Remembered key entry g
      → Remembered key entry (run_operations os g)
  unfolding run_operations
  run-Remembered key entry [] g spare h = h
  run-Remembered key entry (o ∷ os) g (spares, spare) h =
      run-Remembered key entry os (after_operation o g) spare
        (operation-Remembered key entry o g spares h)

  -- After a provider's success was remembered under an idempotency key, and whatever operations
  -- under other keys follow that find room for their replies, none of them later than the key
  -- expires, a call under the key before that time is answered without a provider: with the same result, marked stale once its validity is
  -- over, if the request is the same, and with a conflict if not. It only prunes what has expired.
  pub replay_once :
      (capability : Capability) (hash again : String) (cached cached_again : Option String)
      (key : OperationKey) (result : ProviderResult) (now wall later wall_later : ℕ) (g : Gateway)
      (os : List Operation)
      → let s = (remember_success settings capability hash cached (some key) result now wall g).1 in
        AllSpare key (now + settings.idempotency_ttl) s os
        → later < now + settings.idempotency_ttl
        → answer_locally policy settings cached_again
            (some key)
            again
            later
            wall_later
            (run_operations os s)
          ≡ (
            (if hash == again
                then ok (some (with_current_freshness result wall_later))
                else err idempotency_conflict),
            prune_state policy later (run_operations os s),
          )
  replay_once capability hash again cached cached_again key result now wall later wall_later g os
        spare early =
      let s = (remember_success settings capability hash cached (some key) result now wall g).1 in
      let entry : IdempotencyEntry = record {
        request_hash = hash;
        result = result;
        expires_at = now + settings.idempotency_ttl;
      } in
      answer-prior policy settings cached_again key again entry later wall_later
        (run_operations os s)
        (prune_state-prior policy key entry later (run_operations os s)
          (run-Remembered key entry os s spare
            (stored-reply settings capability hash cached key result now wall g))
          early)
