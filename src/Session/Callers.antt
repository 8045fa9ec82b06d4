-- ===== src/Session/Callers.antt =====
-- Any sequence of calls of Grant and Close of etcdv3client/session.cc.
use etcdv3client.Prelude.{
  ◌+◌, ◌≤◌, ◌≡◌, ◌≢◌, refl, true, List, [], ◌∷◌, arith, Bool-cases, inl, inr, ap, ◌∙◌, sym,
}
use etcdv3client.Bytes.{Bytes}
use etcdv3client.Status.{StatusLibrary}
use etcdv3client.Client.{Client}
use etcdv3client.Session.{Session, new_session}
use etcdv3client.Session.Methods.{grant, close}
use etcdv3client.Effect.Logic
use etcdv3client.Effect.Logic.{Model, Holds}
use etcdv3client.Session.Calling.{
  running, Shared, calling, unstarted, Operation, grant_call, close_call, count, operate, successes,
  Granted, Counted, Refused, Closed, at_most_one, grant-Granted, close-Closed,
}

module _ (lib : StatusLibrary) (closed_text granted_text : Bytes) where
  operate-Counted :
      (ops : List Operation) (s : Session) (v : Shared)
      → v.started ≡ count s.granted
      → Holds calling
          (Counted lib closed_text granted_text v)
          (operate lib closed_text granted_text ops s)
          v
  unfolding operate successes Granted Counted
  operate-Counted [] s v linked =
      (at_most_one lib closed_text granted_text s v.started linked, (omega arith, linked))
  operate-Counted (grant_call context options ∷ ops) s v linked =
      Logic.bind calling (Granted lib closed_text granted_text s v) _
        (grant lib closed_text granted_text context options s) _ v
        (grant-Granted lib closed_text granted_text context options s v linked)
        (λ r w most h.
          Logic.bind calling (Counted lib closed_text granted_text w) _
            (operate lib closed_text granted_text ops r.1) _ w (operate-Counted ops r.1 w h.0)
            (λ q u most' k. (
              most',
              (
                elim (Bool-cases (lib.is_ok r.0)) [
                  | inl e ↦ rw e (
                      let one : w.started ≡ 1 + v.started = h.1 ∙ ap (λ b. count b + v.started) e in
                      omega (arith, k.0))
                  | inr e ↦ rw e (
                      let same : w.started ≡ 0 + v.started =
                        h.1 ∙ ap (λ b. count b + v.started) e in
                      omega (arith, k.0))
                ],
                k.1,
              ),
            )))
  operate-Counted (close_call ∷ ops) s v linked =
      Logic.bind calling (Closed v) _ close _ v
        (close-Closed lib closed_text granted_text v
          (at_most_one lib closed_text granted_text s v.started linked))
        (λ _ w most h.
          Logic.mono calling (Counted lib closed_text granted_text w) _
            (operate lib closed_text granted_text ops s) w (operate-Counted ops s w (h.0 ∙ linked))
            (λ q u _ k. (omega (arith, k.0, h.0), k.1)))

  operate-Refused :
      (ops : List Operation) (s : Session) (v : Shared)
      → v.started ≡ count s.granted
      → v.closed_set ≡ true
      → v.thread ≢ running
      → Holds calling
          (Refused lib closed_text granted_text v)
          (operate lib closed_text granted_text ops s)
          v
  unfolding operate Granted
  operate-Refused [] s v linked is_closed ended =
      (at_most_one lib closed_text granted_text s v.started linked, (tt, refl, is_closed, ended))
  operate-Refused (grant_call context options ∷ ops) s v linked is_closed ended =
      Logic.bind calling (Granted lib closed_text granted_text s v) _
        (grant lib closed_text granted_text context options s) _ v
        (grant-Granted lib closed_text granted_text context options s v linked)
        (λ r w most h.
          Logic.bind calling (Refused lib closed_text granted_text w) _
            (operate lib closed_text granted_text ops r.1) _ w
            (operate-Refused ops r.1 w h.0 (h.2 is_closed).2
              (λ e. ended (sym (h.2 is_closed).3 ∙ e)))
            (λ q u most' k. (most', (((h.2 is_closed).0, k.0), k.1 ∙ (h.2 is_closed).1, k.2, k.3))))
  operate-Refused (close_call ∷ ops) s v linked is_closed ended =
      Logic.bind calling (Closed v) _ close _ v
        (close-Closed lib closed_text granted_text v
          (at_most_one lib closed_text granted_text s v.started linked))
        (λ _ w most h.
          Logic.mono calling (Refused lib closed_text granted_text w) _
            (operate lib closed_text granted_text ops s) w
            (operate-Refused ops s w (h.0 ∙ linked) h.1 h.2)
            (λ r u _ k. (k.0, k.1 ∙ h.0, k.2, k.3)))

  -- Grant and Close called in any order on a new session, by any threads, where each call returns before
  -- the next begins and the closed event, once set, stays set: at most one worker thread has been started
  -- in the end, and as many as calls of Grant have returned OK.
  pub grants_once :
      (client : Client) (ops : List Operation)
      → Holds calling
          (λ r w. (successes lib closed_text granted_text r.0 ≡ w.started) × (w.started ≤ 1))
          (operate lib closed_text granted_text ops (new_session client))
          unstarted
  unfolding Counted
  grants_once client ops =
      Logic.mono calling (Counted lib closed_text granted_text unstarted)
        (λ r w. (successes lib closed_text granted_text r.0 ≡ w.started) × (w.started ≤ 1))
        (operate lib closed_text granted_text ops (new_session client)) unstarted
        (operate-Counted ops (new_session client) unstarted refl)
        (λ r w most h. (omega (arith, h.0), most))

  -- Close is called, and then Grant and Close in any order, in a state where `granted_` tells whether a
  -- worker thread has been started: every call of Grant returns SessionAlreadyClosed, no further thread is
  -- started, and in the end the closed event is set and no thread is left to be joined.
  pub close_ends :
      (ops : List Operation) (s : Session) (v : Shared)
      → v.started ≡ count s.granted
      → Holds calling
          (Refused lib closed_text granted_text v)
          (operate lib closed_text granted_text (close_call ∷ ops) s)
          v
  unfolding operate
  close_ends ops s v linked =
      Logic.bind calling (Closed v) (Refused lib closed_text granted_text v) close _ v
        (close-Closed lib closed_text granted_text v
          (at_most_one lib closed_text granted_text s v.started linked))
        (λ _ w most h.
          Logic.mono calling (Refused lib closed_text granted_text w)
            (Refused lib closed_text granted_text v) (operate lib closed_text granted_text ops s) w
            (operate-Refused ops s w (h.0 ∙ linked) h.1 h.2)
            (λ r u _ k. (k.0, k.1 ∙ h.0, k.2, k.3)))
