-- ===== src/Client/Session.antt =====
-- What a login leaves behind.
use craft_client.Prelude.{
  ℕ, zero, suc, ◌+◌, ◌%◌, ◌<◌, ◌≡◌, refl, ap, ◌∙◌, false, ◌&&◌, Option, none, List, [], ◌∷◌, leb,
  ◌==◌, arith, inl, inr, Bool-cases,
}
use craft_client.Prelude.Results.{ok}
use craft_client.Types.{Lsn, LsnPair, LoginResult, ErrorCondition, Result}
use craft_client.Stream.{StreamTracker}
use craft_client.Stream.Intervals.{IntervalMap}
use craft_client.Tracker.{DlsnSlot}
use craft_client.Route.{RouteSlot}
use craft_client.Client.{
  State, quorum_of, probe, admit, open_session, after_reply, login_walk, login, precheck,
}

module _ (st : StreamTracker DlsnSlot) (sr : StreamTracker RouteSlot) (im : IntervalMap) where
  -- Admission decides the result; the session stays as it was opened.
  admit-keeps :
      (l : Lsn) (acks : List (Result LsnPair)) (later : List (List (Result LsnPair)))
      (c : State st sr im)
      → ((admit st sr im l acks later c).1.term ≡ c.term)
        × ((admit st sr im l acks later c).1.lba_size ≡ c.lba_size)
        × ((admit st sr im l acks later c).1.client_token ≡ c.client_token)
        × ((admit st sr im l acks later c).1.tracker ≡ c.tracker)
  unfolding admit
  admit-keeps l acks [] c =
      let p = probe st sr im 0 l acks 0 false c.route in
      elim (Bool-cases (leb (quorum_of c.replicas) p.0 && p.1)) [
        | inl yes_q ↦ rw yes_q (refl, refl, refl, refl)
        | inr no_q ↦ rw no_q (refl, refl, refl, refl)
      ]
  admit-keeps l acks (next ∷ later) c =
      let p = probe st sr im 0 l acks 0 false c.route in
      elim (Bool-cases (leb (quorum_of c.replicas) p.0 && p.1)) [
        | inl yes_q ↦ rw (yes_q, admit) (refl, refl, refl, refl)
        | inr no_q ↦ rw (no_q, admit) (admit-keeps l next later (record c { route = p.2 }))
      ]

  walk_first :
      (n token target : ℕ) (replies : ℕ → Result LoginResult) (acks : List (Result LsnPair))
      (later : List (List (Result LsnPair))) (err : Option ErrorCondition) (c : State st sr im)
      (lr : LoginResult)
      → 0 < n
      → (c.leader + 0) % c.replicas ≡ target
      → replies target ≡ ok lr
      → 0 < lr.term
      → login_walk st sr im n 0 token replies acks later err c
        ≡ admit st sr im lr.dlsn acks later (open_session st sr im target token lr c)
  unfolding login_walk
  walk_first zero token target replies acks later err c lr pos et e tp = absurd (omega arith)
  walk_first (suc n) token target replies acks later err c lr pos et e tp =
      let go_on =
        λ (x : Option ErrorCondition). login_walk st sr im n 1 token replies acks later x c in
      let leads : (lr.term == 0) ≡ false = ground arith in
      ap (λ i. after_reply st sr im i token (replies i) acks later go_on err c) et
      ∙ ap (λ r. after_reply st sr im target token r acks later go_on err c) e
      ∙ rw leads refl

  -- Once the first target answers as the leader, the session is open, whatever the probes say: the
  -- client has the leader's term and block size, and takes I/O on whole blocks. This is so also
  -- where the admission fails and the login returns NO_QUORUM.
  pub login_opens :
      (token addr len : ℕ) (replies : ℕ → Result LoginResult) (acks : List (Result LsnPair))
      (later : List (List (Result LsnPair))) (c : State st sr im) (lr : LoginResult)
      → 0 < c.replicas
      → replies (c.leader % c.replicas) ≡ ok lr
      → 0 < lr.term
      → 0 < lr.lba_size
      → 0 < len
      → addr % lr.lba_size ≡ 0
      → len % lr.lba_size ≡ 0
      → ((login st sr im token replies acks later c).1.term ≡ lr.term)
        × ((login st sr im token replies acks later c).1.client_token ≡ token)
        × (precheck st sr im addr len (login st sr im token replies acks later c).1 ≡ none)
  unfolding login precheck
  login_opens token addr len replies acks later c lr pos e tp lp np am lm =
      let target = c.leader % c.replicas in
      let opened = open_session st sr im target token lr c in
      let at : (c.leader + 0) % c.replicas ≡ target = ap (λ x. x % c.replicas) (omega arith) in
      let first = walk_first c.replicas token target replies acks later none c lr pos at e tp in
      let keeps = admit-keeps lr.dlsn acks later opened in
      rw first (keeps.0, keeps.2, rw (keeps.0, keeps.1) (ground arith))
