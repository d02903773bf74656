-- ===== src/Server/Gate.antt =====
-- Orders of events: whatever the test `access` names comes behind an event that the test `gate` names.
use radmind.Base.{◌≡◌, Bool, true, false, not, ◌&&◌, ◌||◌, List, [], ◌∷◌, ◌++◌, arith}
use radmind.Server.{
  Event, opened, statted, made, created, unlinked, wrote, tls_started, logged_in, Session,
}
use radmind.Server.Adds.{Later, every}

-- The newest event stands first.
unfoldable pub seen : (Event → Bool) → List Event → Bool
seen gate [] = false
seen gate (e ∷ events) = gate e || seen gate events

unfoldable pub behind : (Event → Bool) → (Event → Bool) → List Event → Bool
unfolding seen
behind access gate [] = true
behind access gate (e ∷ events) = behind access gate events && (not (access e) || seen gate events)

-- The files of the server that a request reads, or that it changes.
unfoldable pub touches : Event → Bool
touches (opened path) = true
touches (statted path) = true
touches (made path) = true
touches (created path) = true
touches (unlinked path) = true
touches (wrote path chunk) = true
touches e = false

unfoldable pub changes : Event → Bool
changes (made path) = true
changes (created path) = true
changes (unlinked path) = true
changes (wrote path chunk) = true
changes e = false

unfoldable pub is_tls : Event → Bool
is_tls tls_started = true
is_tls e = false

unfoldable pub is_login : Event → Bool
is_login logged_in = true
is_login e = false

unfoldable pub none_of : (Event → Bool) → Event → Bool
none_of access e = not (access e)

module _ (access gate : Event → Bool) where
  seen-append :
      (new events : List Event) → seen gate events ≡ true → seen gate (new ++ events) ≡ true
  unfolding seen
  seen-append [] events h = h
  seen-append (e ∷ new) events h = ground (arith, seen-append new events h)

  behind-append_seen :
      (new events : List Event)
      → seen gate events ≡ true
      → behind access gate events ≡ true
      → behind access gate (new ++ events) ≡ true
  unfolding behind
  behind-append_seen [] events s h = h
  behind-append_seen (e ∷ new) events s h =
      ground (arith, behind-append_seen new events s h, seen-append new events s)

  behind-append_quiet :
      (new events : List Event)
      → every (none_of access) new ≡ true
      → behind access gate events ≡ true
      → behind access gate (new ++ events) ≡ true
  unfolding behind every none_of
  behind-append_quiet [] events s h = h
  behind-append_quiet (e ∷ new) events s h = ground (arith, behind-append_quiet new events, s, h)

  module _ {allowed : Event → Bool} {strict kept : Bool} (s t : Session)
      (l : Later allowed strict kept s t) where
    pub seen-Later : seen gate s.events ≡ true → seen gate t.events ≡ true
    seen-Later h = rw l.events_eq (seen-append l.new s.events h)

    pub behind-Later :
        seen gate s.events ≡ true
        → behind access gate s.events ≡ true
        → behind access gate t.events ≡ true
    behind-Later g h = rw l.events_eq (behind-append_seen l.new s.events g h)

  pub behind-quiet :
      {strict kept : Bool} (s t : Session)
      → Later (none_of access) strict kept s t
      → behind access gate s.events ≡ true
      → behind access gate t.events ≡ true
  behind-quiet s t l h = rw l.events_eq (behind-append_quiet l.new s.events l.allowed_new h)
