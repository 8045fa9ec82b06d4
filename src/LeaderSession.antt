-- ===== src/LeaderSession.antt =====
-- etcdv3client/leader_session.h and etcdv3client/leader_session.cc: the constructor, the accessors, Campaign
-- with StartCampaign, whose body is empty, and Proclaim, Resign and Stop, whose bodies are empty too where a
-- status is promised: C++ leaves undefined what a call of them does, and so what the destructor does.
use etcdv3client.Prelude.{
  ℕ, ◌≡◌, Bool, true, false, [], Bool-cases, Option, none, inl, inr, if◌then◌else◌,
}
use etcdv3client.Bytes.{Bytes}
use etcdv3client.Session.{Session}
use etcdv3client.Election.Node.{CampaignOptions, default_campaign_options}

-- context::Event, which is not part of the repository, and what the client relies on: an event made by
-- `Event()` is not set, one made by `Event(a, b)` is set if `b` is.
pub record EventLibrary : Type 1 where
  pub Event : Type 0
  pub new_event : Event
  pub new_event_with : Bool → Bool → Event
  pub is_set : Event → Bool
  pub is_set-new_event : is_set new_event ≡ false
  pub is_set-new_event_with : (a b : Bool) → is_set (new_event_with a b) ≡ b

-- context::Context::WithWaitable, and what the client relies on: the context is finished as soon as what it
-- was made with is.
pub record ContextLibrary (lib : EventLibrary) : Type 1 where
  pub Context : Type 0
  pub with_waitable : lib.Event → Option Context → Context
  pub finished : Context → Bool
  pub finished-with_waitable :
      (e : lib.Event) (parent : Option Context)
      → lib.is_set e ≡ true
      → finished (with_waitable e parent) ≡ true

-- What a call comes to: a result, or whatever an implementation of C++ makes of it.
pub data Outcome (A : Type 0) : Type 0 where
  defined : A → Outcome A
  undefined : Outcome A

module _ (lib : EventLibrary) where
  open lib use {Event, new_event, new_event_with, is_set}

  pub record LeaderSession : Type 0 where
    pub session : Session
    pub resign_event : Event
    pub stop_event : Event
    pub elected_event : Event
    pub lost_event : Event
    pub key_prefix : Bytes
    pub leader_key : Bytes
    pub leader_value : Bytes

  abbrev pub get_session : LeaderSession → Session
  get_session s = s.session

  abbrev pub get_key_prefix : LeaderSession → Bytes
  get_key_prefix s = s.key_prefix

  abbrev pub get_value : LeaderSession → Bytes
  get_value s = s.leader_value

  abbrev pub get_elected_event : LeaderSession → Event
  get_elected_event s = s.elected_event

  abbrev pub get_lost_event : LeaderSession → Event
  get_lost_event s = s.lost_event

  -- LeaderSession(session, key_prefix, value)
  unfoldable pub new_leader_session : Session → Bytes → Bytes → LeaderSession
  new_leader_session session key_prefix value = record {
    session = session;
    resign_event = new_event_with true false;
    stop_event = new_event_with true false;
    elected_event = new_event;
    lost_event = new_event_with false true;
    key_prefix = key_prefix;
    leader_key = [];
    leader_value = value;
  }

  -- StartCampaign(ctx, options): an empty body.
  unfoldable pub start_campaign : ℕ → CampaignOptions → LeaderSession → LeaderSession
  start_campaign ctx options s = s

  unfoldable pub is_leader : LeaderSession → Bool
  is_leader s = is_set (get_elected_event s)

  -- StartCampaign(ctx)
  unfoldable pub start_campaign_default : ℕ → LeaderSession → LeaderSession
  unfolding start_campaign
  start_campaign_default ctx s = start_campaign ctx default_campaign_options s

  -- CampaignAndWatch(ctx): an empty body, whose type is deduced to be void.
  unfoldable pub campaign_and_watch : ℕ → LeaderSession → LeaderSession
  campaign_and_watch ctx s = s

  -- Proclaim, Resign and Stop: empty bodies, which end without the status that they promise.
  unfoldable pub proclaim : ℕ → Bytes → LeaderSession → Outcome LeaderSession
  proclaim context value s = undefined

  unfoldable pub resign : ℕ → LeaderSession → Outcome LeaderSession
  resign context s = undefined

  unfoldable pub stop : ℕ → LeaderSession → Outcome LeaderSession
  stop context s = undefined

  -- ~LeaderSession(): it stops the session, with a context of its own, and logs a failure.
  unfoldable pub destroy : ℕ → LeaderSession → Outcome (Unit {0})
  unfolding stop
  destroy context s = elim (stop context s) [ defined s' ↦ defined tt | undefined ↦ undefined ]

  -- NewLeaderContext(ctx); a null pointer is `none`.
  unfoldable pub new_leader_context :
      (contexts : ContextLibrary lib) → Option contexts.Context → LeaderSession → contexts.Context
  new_leader_context contexts ctx s = contexts.with_waitable (get_lost_event s) ctx

  -- NewLeaderContext()
  unfoldable pub new_leader_context_default :
      (contexts : ContextLibrary lib) → LeaderSession → contexts.Context
  unfolding new_leader_context
  new_leader_context_default contexts s = new_leader_context contexts none s

  -- ElectionImpl::Campaign(ctx, key_prefix, value, session, options)
  unfoldable pub campaign : ℕ → Bytes → Bytes → Session → CampaignOptions → LeaderSession
  unfolding new_leader_session start_campaign
  campaign ctx key_prefix value session options =
      let s = new_leader_session session key_prefix value in
      if options.donot_auto_start then s else start_campaign ctx options s

  -- Campaign, whatever its arguments, gives a leader session that is not the leader and whose lost event is
  -- set: no campaign is started.
  pub campaign_never_leads :
      (ctx : ℕ) (key_prefix value : Bytes) (session : Session) (options : CampaignOptions)
      → (is_leader (campaign ctx key_prefix value session options) ≡ false)
        × (is_set (campaign ctx key_prefix value session options).lost_event ≡ true)
  unfolding campaign is_leader
  campaign_never_leads ctx key_prefix value session options =
      elim (Bool-cases options.donot_auto_start) [
        | inl e ↦ rw e (lib.is_set-new_event, lib.is_set-new_event_with false true)
        | inr e ↦ rw e (lib.is_set-new_event, lib.is_set-new_event_with false true)
      ]
