-- ===== src/Replica/Forward.antt =====
-- What no request undoes: the commit frontier and the Empty verdicts.
use craft_client.Prelude.{
  Bool, false, ◌⊎◌, min, ap, subst, sym, ◌∙◌, ℕ, ◌+◌, ◌≤◌, ◌≡◌, refl, true, not, ◌==◌, Option, List,
  arith, inl, inr, Bool-cases, if◌then◌else◌, if_either, Option-cases, ltb,
}
use craft_client.Prelude.OrderedMap.{find, find-assign, up_to, find-up_to}
use craft_client.Prelude.Results.{ok, unexpected}
use craft_client.Types.{Lsn, ClientHdr, generic, invalid_argument}
use craft_client.Replica.{MemCraftReplica, MemJournalSlot, tombstone, with_append}
use craft_client.Replica.Apply.{apply_up_to}
use craft_client.Replica.Apply.Frontier.{apply_up_to-Applies, Applies-bounds, Applies-same}
use craft_client.Replica.Ops.{
  do_write, do_keep_alive, do_resolve_local, lsns_of, append, write_slot, misaligned, wrong_size,
  holds_verdict, cold_apply_sync, cold_apply_login, cold_apply_logout, cold_install_slot,
  cold_mark_empty, do_truncate, cold_truncate_above,
}
use craft_client.Replica.Read.{do_read}
use craft_client.Replica.Resolve.{marked, find-scanned}
use craft_client.Replica.Reach.{
  Step, written, was_read, kept_alive, resolved, synced, logged_in, logged_out, installed, voided,
  truncated, truncated_above,
}

-- The frontier of `q` is not behind that of `r`, and a verdict of `r` on `d` is one of `q`.
record Forward (d : Lsn) (r q : MemCraftReplica) : Type 0 where
  frontier : r.commit_lsn ≤ q.commit_lsn
  verdict : holds_verdict (find d r.journal) ≡ true → holds_verdict (find d q.journal) ≡ true

-- Shut, so that a proof can be split by the branches of an operation.
Onward : {A : Type 0} → Lsn → MemCraftReplica → A × MemCraftReplica → Type 0
Onward d r p = Forward d r p.1

module _ {A : Type 0} (d : Lsn) (r : MemCraftReplica) where
  onward : (a : A) {q : MemCraftReplica} → Forward d r q → Onward d r (a, q)
  unfolding Onward
  onward a f = f

  of_Onward : (p : A × MemCraftReplica) → Onward d r p → Forward d r p.1
  unfolding Onward
  of_Onward p f = f

module _ (d : Lsn) (r : MemCraftReplica) where
  stays : Forward d r r
  stays = record { frontier = omega arith; verdict = λ h. h }

  applied :
      (q : MemCraftReplica) (target : Lsn) → Forward d r q → Forward d r (apply_up_to q target)
  applied q target f = record {
    frontier = omega (arith, (Applies-bounds (apply_up_to-Applies q target)).0, f.frontier);
    verdict = λ h. rw (Applies-same (apply_up_to-Applies q target)).journal (f.verdict h);
  }

  append-Forward :
      (e : Lsn) (s : MemJournalSlot)
      → (holds_verdict (find e r.journal) ≡ true → s.is_empty ≡ true)
      → Forward d r (append r e s)
  append-Forward e s h = record {
    frontier = omega arith;
    verdict = λ v. ground (arith, find-assign e s r.journal d, h);
  }

  do_write-Forward :
      (hdr : ClientHdr) (dlsn : Lsn) (addr len : ℕ) (bytes : Option (List ℕ))
      → Forward d r (do_write r hdr dlsn addr len bytes).1
  unfolding do_write
  do_write-Forward hdr dlsn addr len bytes = of_Onward d r (do_write r hdr dlsn addr len bytes) (
      if_either (Onward d r) (misaligned r.page_size addr len) (onward d r _ stays) (
        if_either (Onward d r) (wrong_size bytes len) (onward d r _ stays)
          (if_either (Onward d r) (not (hdr.term == r.term)) (onward d r _ stays) unless_void)))
    where
      slot : MemJournalSlot
      slot = write_slot r.page_size hdr.term addr len bytes

      q : MemCraftReplica
      q = apply_up_to (append r dlsn slot) hdr.commit_lsn

      unless_void : Onward d r (
          if holds_verdict (find dlsn r.journal)
          then (unexpected (generic invalid_argument), r)
          else (ok (lsns_of q), q))
      unless_void = elim (Bool-cases (holds_verdict (find dlsn r.journal))) [
        | inl void ↦ rw void (onward d r _ stays)
        | inr open_slot ↦ rw open_slot (
            onward d r _
              (applied _ hdr.commit_lsn (append-Forward dlsn slot (λ void. absurd (ground arith)))))
      ]

  do_read-Forward :
      (hdr : ClientHdr) (H : Lsn) (addr len dest_size : ℕ)
      → Forward d r (do_read r hdr H addr len dest_size).1
  unfolding do_read
  do_read-Forward hdr H addr len dest_size = of_Onward d r (do_read r hdr H addr len dest_size) (
      if_either (Onward d r) (misaligned r.page_size addr len) (onward d r _ stays) (
        if_either (Onward d r) (ltb dest_size len) (onward d r _ stays) (
          if_either (Onward d r) (not (hdr.term == r.term)) (onward d r _ stays)
            (onward d r _ (counted (applied r hdr.commit_lsn stays))))))
    where
      counted :
          {q : MemCraftReplica}
          → Forward d r q
          → Forward d r (record q { reads_served = q.reads_served + 1 })
      counted f = record { frontier = f.frontier; verdict = f.verdict }

  do_keep_alive-Forward : (hdr : ClientHdr) → Forward d r (do_keep_alive r hdr).1
  unfolding do_keep_alive
  do_keep_alive-Forward hdr = of_Onward d r (do_keep_alive r hdr) (
      if_either (Onward d r) (not (hdr.term == r.term)) (onward d r _ stays) (
        onward d r _
          (applied _ hdr.commit_lsn (record { frontier = omega arith; verdict = λ h. h }))))

  do_resolve_local-Forward :
      (hdr : ClientHdr) (upto : Lsn) → Forward d r (do_resolve_local r hdr upto).1
  unfolding do_resolve_local
  do_resolve_local-Forward hdr upto = of_Onward d r (do_resolve_local r hdr upto) (
      if_either (Onward d r) (not (hdr.term == r.term)) (onward d r _ stays) (
        onward d r _ (
          applied (marked r upto) upto (record {
            frontier = omega arith;
            verdict = λ h. rw (find-scanned r upto d) (ground arith);
          }))))

  cold_install_slot-Forward : (e : Lsn) (s : MemJournalSlot) → Forward d r (cold_install_slot r e s)
  unfolding cold_install_slot
  cold_install_slot-Forward e s = elim (Option-cases (find e r.journal)) [
    | inl gone ↦ rw (gone, cold_install_slot) (append-Forward e s (λ void. absurd (ground arith)))
    | inr (t, held) ↦ rw (held, cold_install_slot) stays
  ]

-- A truncation below `d`.
abbrev pub cuts : {r q : MemCraftReplica} → Lsn → Step r q → Bool
cuts d (truncated lsn) = ltb lsn d
cuts d (truncated_above rs) = ltb rs d
cuts d _ = false

truncate-Forward :
    (d : Lsn) (r : MemCraftReplica) (lsn : Lsn)
    → ltb lsn d ≡ false
    → Forward d r
        (with_append (record r { journal = up_to lsn r.journal }) (min r.last_append_lsn lsn))
truncate-Forward d r lsn e = record {
  frontier = omega arith;
  verdict = λ h. rw (find-up_to lsn r.journal d) (ground arith);
}

-- What a request does to the frontier and to a verdict at `d`.
abbrev Keeps : {r q : MemCraftReplica} → Lsn → Step r q → Type 0
Keeps {r} {q} d s =
    (r.commit_lsn ≤ q.commit_lsn)
    × (holds_verdict (find d r.journal) ≡ true
        → (holds_verdict (find d q.journal) ≡ true) ⊎ (cuts d s ≡ true))

Forward-Keeps : {r q : MemCraftReplica} (d : Lsn) (s : Step r q) → Forward d r q → Keeps d s
Forward-Keeps d s f = (f.frontier, (λ h. inl (f.verdict h)))

truncate-Keeps :
    {r q : MemCraftReplica} (d lsn : Lsn) (s : Step r q)
    → cuts d s ≡ ltb lsn d
    → q ≡ with_append (record r { journal = up_to lsn r.journal }) (min r.last_append_lsn lsn)
    → Keeps d s
truncate-Keeps {r} d lsn s e same = elim (Bool-cases (ltb lsn d)) [
  | inl below ↦ (omega (arith, ap (λ x. x.commit_lsn) same), (λ h. inr (e ∙ below)))
  | inr spared ↦
      Forward-Keeps d s (subst (Forward d r) (sym same) (truncate-Forward d r lsn spared))
]

-- A request of the client or of the cold path, refused or accepted and with any arguments, does not
-- move the commit frontier of a replica back, and an Empty verdict that the replica holds is still
-- there, unless the request is a truncation below its dLSN.
pub Step_forward :
    (r q : MemCraftReplica) (d : Lsn) (s : Step r q)
    → (r.commit_lsn ≤ q.commit_lsn)
      × (holds_verdict (find d r.journal) ≡ true
          → (holds_verdict (find d q.journal) ≡ true) ⊎ (cuts d s ≡ true))
unfolding cold_apply_login cold_apply_logout cold_apply_sync cold_mark_empty do_truncate
    cold_truncate_above
Step_forward r _ d (written hdr dlsn addr len bytes) =
    Forward-Keeps {r = r} d (written hdr dlsn addr len bytes)
      (do_write-Forward d r hdr dlsn addr len bytes)
Step_forward r _ d (was_read hdr H addr len dest_size) =
    Forward-Keeps {r = r} d (was_read hdr H addr len dest_size)
      (do_read-Forward d r hdr H addr len dest_size)
Step_forward r _ d (kept_alive hdr) =
    Forward-Keeps {r = r} d (kept_alive hdr) (do_keep_alive-Forward d r hdr)
Step_forward r _ d (resolved hdr upto) =
    Forward-Keeps {r = r} d (resolved hdr upto) (do_resolve_local-Forward d r hdr upto)
Step_forward r _ d (synced rs) = Forward-Keeps {r = r} d (synced rs) (applied d r r rs (stays d r))
Step_forward r _ d (logged_in client_token term) =
    Forward-Keeps {r = r} d (logged_in client_token term)
      (record { frontier = omega arith; verdict = λ h. h })
Step_forward r _ d logged_out =
    Forward-Keeps {r = r} d logged_out (record { frontier = omega arith; verdict = λ h. h })
Step_forward r _ d (installed e s) =
    Forward-Keeps {r = r} d (installed e s) (cold_install_slot-Forward d r e s)
Step_forward r _ d (voided e) =
    Forward-Keeps {r = r} d (voided e) (append-Forward d r e (tombstone r.term) (λ h. refl))
Step_forward r _ d (truncated lsn) = truncate-Keeps {r = r} d lsn (truncated lsn) refl refl
Step_forward r _ d (truncated_above rs) = truncate-Keeps {r = r} d rs (truncated_above rs) refl refl
