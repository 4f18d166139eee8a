-- ===== src/Queue/Board/Removed.antt =====
-- A removal hands back a ticket.
use job_queue_service.Prelude.{
  ℕ, ◌<◌, ◌≡◌, ◌≢◌, refl, sym, ap, ◌∙◌, subst, true, false, Option, none, some, arith, ==_self,
  Bool-cases, inl, inr, ◌==◌, if◌then◌else◌,
}
use native.Mathlib.Decide.{ℕ_discrete}
use job_queue_service.Text.{equal}
use job_queue_service.Text.Laws.{equal_self}
use job_queue_service.Redis.{Redis, Uuids}
use job_queue_service.Queue.{exact_limit, Ready, member_of, points_at, remove_script}
use job_queue_service.Queue.Member.{member_of_injective, candidate_at, from_member-member_of}
use job_queue_service.Queue.Index.{not_equal, text_ne}
use job_queue_service.Queue.Remove.{remove_script-IsIndexed}
use job_queue_service.Queue.Board.{Board, Ticket, hand_back, unless_number}
use job_queue_service.Queue.Board.Shows.{Holds, Holds-moved, Shows, other_member}

module _ (redis : Redis) (uuids : Uuids) where
  open redis use {zscore, hget, value, zscore-zrem, hget-hdel}
  open uuids use {text}

  module _ (q : Ready redis uuids) (b : Board) (shows : Shows redis uuids q b) (n i : ℕ)
      (room : n < exact_limit) where
    removed : Ready redis uuids
    unfolding remove_script
    removed = (remove_script redis uuids (member_of uuids n i) i q).1

    removed_other : (j : ℕ) → i ≢ j → Holds redis uuids removed j (b.ticket j)
    unfolding removed
    removed_other j ne =
        Holds-moved redis uuids q removed j (b.ticket j)
          (elim (Bool-cases (points_at (member_of uuids n i) (hget q.entries (text i)))) [
            | inl hit ↦ rw (hit, hget-hdel, text_ne redis uuids i j ne) refl
            | inr miss ↦ rw miss refl
          ])
          (λ k le entry.
            rw (zscore-zrem, other_member redis uuids q n i k j shows.indexed room le ne) refl)
          (omega arith) (shows.holds j)

    removed_self :
        (o : Option Ticket)
        → Holds redis uuids q i o
        → Holds redis uuids removed i (unless_number n o)
    unfolding removed
    removed_self none h = rw h h
    removed_self (some t) h = elim (ℕ_discrete t.number n) [
      | yes same ↦
          let is : (t.number == n) ≡ true = ground arith in
          let entry : hget q.entries (text i) ≡ some (member_of uuids n i) =
            h.0 ∙ ap (λ k. some (member_of uuids k i)) same in
          rw (is, entry, equal_self (member_of uuids n i), hget-hdel, equal_self (text i)) refl
      | no differ ↦
          let is : (t.number == n) ≡ false = ground arith in
          let below : t.number < exact_limit = omega (arith, h.2, shows.indexed.counted) in
          let kept : equal (member_of uuids t.number i) (member_of uuids n i) ≡ false =
            not_equal _ _ λ e. differ (member_of_injective uuids t.number n i i below room e).0 in
          let stays : equal (member_of uuids n i) (member_of uuids t.number i) ≡ false =
            not_equal _ _
              λ e. differ (member_of_injective uuids t.number n i i below room (sym e)).0 in
          rw (is, h.0, kept) (h.0, rw (zscore-zrem, stays) h.1, h.2)
    ]

    removed-Holds :
        (j : ℕ)
        → Holds redis uuids removed j (if i == j then unless_number n (b.ticket j) else b.ticket j)
    removed-Holds j = elim (ℕ_discrete i j) [
      | yes e ↦
          subst
            (λ k.
              Holds redis uuids removed k
                (if i == k then unless_number n (b.ticket k) else b.ticket k))
            e (rw (==_self i) (removed_self (b.ticket i) (shows.holds i)))
      | no ne ↦ let apart : (i == j) ≡ false = ground arith in rw apart (removed_other j ne)
    ]

    pub remove_script-Shows :
        Shows redis uuids (remove_script redis uuids (member_of uuids n i) i q).1 (hand_back n i b)
    unfolding removed hand_back
    remove_script-Shows = record {
      indexed =
          remove_script-IsIndexed redis uuids q shows.indexed (candidate_at uuids n i)
            (from_member-member_of uuids n i room);
      last_shown = shows.last_shown;
      holds = removed-Holds;
    }
