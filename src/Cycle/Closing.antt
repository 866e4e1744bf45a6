-- ===== src/Cycle/Closing.antt =====
-- How a cycle ends: its row, and its `cycle.done`.
use gektar_monitor.Prelude.{
  ℕ, ◌≡◌, refl, ap, sym, subst, ◌∙◌, Bool, false, not, some, List, [], ◌∷◌, ◌++◌, leb, ltb, ◌&&◌,
  length, Bool-cases, inl, inr,
}
use gektar_monitor.Domain.{ErrorCategory}
use gektar_monitor.Domain.Parsed.{ParsedListPage}
use gektar_monitor.Domain.Failures.{
  Failure, Kind, upstream, is_upstream, is_version_mismatch, parse_bug, parser_version_mismatch,
  other,
}
use gektar_monitor.Cycles.{CycleStatus, CycleResult, Cycles, close_cycle}
use gektar_monitor.Cycle.{
  Env, Parsed, parsed, refused, Fetched, response, failed, cycle_error, session_expired, Summary,
  summary_of, World, Ended, returned, raised, observed, publish, publish_cycle_done, Running,
  close_and_announce, close_with_error, close_expired,
}
use gektar_monitor.Cycle.Run.{
  Converted, converted, rejected, Stored, stored, broken, on_stored, on_converted, on_page,
  on_parsed, on_fetched, is_domain_error,
}
use gektar_monitor.Cycle.Pending.{
  dones, Pending, StoredPending, publish-Pending, check_delta-Pending, store_lots-Pending,
  done-Pending,
}

-- The answers that make the inner part raise one of the domain's exceptions itself: the request
-- fails with one that is no `UpstreamError`, or the parser with a `ParserVersionMismatch`.
abbrev pub parser_escapes : Parsed → Bool
parser_escapes (parsed page) = false
parser_escapes (refused e) = is_version_mismatch e.kind

abbrev pub escapes : Fetched → Bool
escapes (failed e) = is_domain_error e.kind && not (is_upstream e.kind)
escapes (response code p) = not (leb 300 code && ltb code 400) && parser_escapes p

module _ (t : Cycles) (ds : List Summary) where
  -- The row of the cycle is there to be closed.
  abbrev pub CanClose : Running → Type 0
  CanClose c = (r : CycleResult) → r.id ≡ c.id → (t' : Cycles) × (close_cycle r.id r t ≡ some t')

  -- The inner part closed the row and published `cycle.done` with its result, or it left both to
  -- the handlers, with an exception that is none of the domain's.
  abbrev pub Inner : Running → Ended → Type 0
  Inner c (returned r w) =
      (r.id ≡ c.id)
      × (close_cycle r.id r t ≡ some w.cycles)
      × (dones w.bus ≡ ds ++ summary_of r ∷ [])
  Inner c (raised e w) = Pending t ds w × (is_domain_error e.kind ≡ false)

  pub closing-returns :
      (c : Running) (env : Env) (r : CycleResult) (w : World)
      → CanClose c
      → r.id ≡ c.id
      → Pending t ds w
      → (w' : World) × (close_and_announce env r w ≡ returned r w')
        × Inner c (returned r w')
        × ((t' : Cycles) × (w' ≡ publish_cycle_done env r (record w { cycles = t' })))
  unfolding close_and_announce
  closing-returns c env r w can same h =
      let (t', q) = can r same in
      let here : close_cycle r.id r w.cycles ≡ some t' = ap (close_cycle r.id r) h.0 ∙ q in
      let (at_t, at_ds) = done-Pending t' ds env r (record w { cycles = t' }) (refl, h.1) in
      (
        publish_cycle_done env r (record w { cycles = t' }),
        rw (close_and_announce, here) refl,
        (same, q ∙ ap (λ x. some x) (sym at_t), at_ds),
        (t', refl),
      )

  closing-Inner :
      (c : Running) (env : Env) (r : CycleResult) (w : World)
      → CanClose c
      → r.id ≡ c.id
      → Pending t ds w
      → Inner c (close_and_announce env r w)
  closing-Inner c env r w can same h =
      let (w', q, inner, _) = closing-returns c env r w can same h in subst (Inner c) (sym q) inner

  pub error-returns :
      (category : ErrorCategory) (env : Env) (c : Running) (e : Failure) (w : World)
      → CanClose c
      → Pending t ds w
      → (r : CycleResult) × (w' : World) × (close_with_error category env c e w ≡ returned r w')
        × Inner c (returned r w')
        × (r.status ≡ CycleStatus.error)
  unfolding close_with_error
  error-returns category env c e w can h =
      let before = publish (cycle_error (env.now w.tick) c.id category) (observed w) in
      let (w', q, inner, _) =
        closing-returns c env _ (observed before) can refl
          (publish-Pending t ds (cycle_error (env.now w.tick) c.id category) (observed w) refl h) in
      (_, w', q, inner, refl)

  error-Inner :
      (category : ErrorCategory) (env : Env) (c : Running) (e : Failure) (w : World)
      → CanClose c
      → Pending t ds w
      → Inner c (close_with_error category env c e w)
  error-Inner category env c e w can h =
      let (r, w', q, inner, _) = error-returns category env c e w can h in
      subst (Inner c) (sym q) inner

  expired-Inner :
      (env : Env) (c : Running) (w : World)
      → CanClose c
      → Pending t ds w
      → Inner c (close_expired env c w)
  unfolding close_expired
  expired-Inner env c w can h =
      closing-Inner c env _ _ can refl
        (publish-Pending t ds (session_expired (env.now w.tick)) (observed w) refl h)

  on_stored-Inner :
      (env : Env) (c : Running) (n : ℕ) (s : Stored)
      → CanClose c
      → StoredPending t ds s
      → Inner c (on_stored env c n s)
  unfolding on_stored
  on_stored-Inner env c n (stored k w) can h = closing-Inner c env _ (observed w) can refl h
  on_stored-Inner env c n (broken e w) can h = (h, refl)

  on_converted-Inner :
      (env : Env) (c : Running) (x : Converted) (w : World)
      → CanClose c
      → Pending t ds w
      → Inner c (on_converted env c x w)
  unfolding on_converted
  on_converted-Inner env c (rejected i) w can h = error-Inner _ env c _ w can h
  on_converted-Inner env c (converted lots) w can h =
      on_stored-Inner env c _ _ can (store_lots-Pending t ds env _ 0 _ h)

  on_page-Inner :
      (env : Env) (c : Running) (page : ParsedListPage) (w : World)
      → CanClose c
      → Pending t ds w
      → Inner c (on_page env c page w)
  unfolding on_page
  on_page-Inner env c page w can h =
      on_converted-Inner env c _ _ can
        (check_delta-Pending t ds env c.region (length page.rows) page.total_count w h)

  on_parsed-Inner :
      (env : Env) (c : Running) (p : Parsed) (w : World)
      → parser_escapes p ≡ false
      → CanClose c
      → Pending t ds w
      → Inner c (on_parsed env c p w)
  unfolding on_parsed
  on_parsed-Inner env c (parsed page) w stays can h = on_page-Inner env c page w can h
  on_parsed-Inner env c (refused e) w stays can h = by_kind e.kind e refl stays
    where
      by_kind :
          (k : Kind) (f : Failure)
          → f.kind ≡ k
          → is_version_mismatch k ≡ false
          → Inner c (on_parsed env c (refused f) w)
      by_kind (upstream s) f q stays = rw (on_parsed, q) (error-Inner _ env c f w can h)
      by_kind Kind.session_expired f q stays = rw (on_parsed, q) (expired-Inner env c w can h)
      by_kind parse_bug f q stays = rw (on_parsed, q) (error-Inner _ env c f w can h)
      by_kind parser_version_mismatch f q stays = cc stays
      by_kind other f q stays = rw (on_parsed, q) (h, ap is_domain_error q)

  pub on_fetched-Inner :
      (env : Env) (c : Running) (a : Fetched) (w : World)
      → escapes a ≡ false
      → CanClose c
      → Pending t ds w
      → Inner c (on_fetched env c a w)
  unfolding on_fetched
  on_fetched-Inner env c (failed e) w stays can h = by_kind e.kind e refl stays
    where
      by_kind :
          (k : Kind) (f : Failure)
          → f.kind ≡ k
          → is_domain_error k && not (is_upstream k) ≡ false
          → Inner c (on_fetched env c (failed f) w)
      by_kind (upstream s) f q stays = rw (on_fetched, q) (error-Inner _ env c f w can h)
      by_kind Kind.session_expired f q stays = cc stays
      by_kind parse_bug f q stays = cc stays
      by_kind parser_version_mismatch f q stays = cc stays
      by_kind other f q stays = rw (on_fetched, q) (h, ap is_domain_error q)
  on_fetched-Inner env c (response code p) w stays can h =
      elim (Bool-cases (leb 300 code && ltb code 400)) [
        | inl q ↦ rw (on_fetched, q) (expired-Inner env c w can h)
        | inr q ↦
            rw (on_fetched, q)
              (on_parsed-Inner env c p w (subst (λ b. not b && parser_escapes p ≡ false) q stays)
                can h)
      ]
