-- ===== src/Identity/Tests.antt =====
-- Runs of the identity view at concrete events.
use network_enricher.Prelude.{
  ℕ, ◌≤◌, ◌≡◌, ◌≢◌, refl, inl, List, [], ◌∷◌, true, false, none, some, arith, Text, codes, text_eq,
  text_eq_iff, Time, ◌==◌,
}
use network_enricher.Identity.{
  DhcpEvent, RadiusEvent, IpBinding, MacBinding, IdentityStore, Op, dhcp, radius, evict, lookup,
  apply_dhcp, apply_radius, lease_step, session_step, run, step, new_identity_store, evict_expired,
  lease, session,
}
use network_enricher.Identity.Leases.{handover_converges, tombstone_holds, release_before_assign}
use network_enricher.Identity.Sessions.{stopped_session_holds}
use network_enricher.Identity.Evidence.{LeasedBy, OpenedBy, device_evidence, user_evidence}
use network_enricher.Identity.Writer.{EventWriter, Round, dhcp_added, remaining, final_flush}
use network_enricher.Identity.Writer.FinalFlush.{
  FlushLedger, flush-FlushLedger, late_events, final_flush_delivers,
}

-- What the runs below compute with.
program : Unit {0}
unfolding lookup lease_step apply_dhcp session_step apply_radius evict_expired step run
    new_identity_store text_eq
program = tt

abbrev ip : Text
ip = codes "10.0.0.5"

abbrev phone : Text
phone = codes "m1"

abbrev laptop : Text
laptop = codes "m2"

abbrev assign : Text → Time → DhcpEvent
assign mac t = record {
  event_time = t;
  event_id = 10;
  ip = ip;
  mac_token = mac;
  host_token = codes "h";
}

abbrev release : Text → Time → DhcpEvent
release mac t = record {
  event_time = t;
  event_id = 12;
  ip = ip;
  mac_token = mac;
  host_token = codes "h";
}

abbrev account : Text → Text → Text → Time → RadiusEvent
account status session user t = record {
  event_time = t;
  acct_status = status;
  session_id = session;
  user_token = user;
  mac_token = phone;
  nas_ip = codes "10.10.0.1";
}

abbrev start : Text → Time → RadiusEvent
start session t = account (codes "Start") session (codes "u1") t

abbrev stop : Text → Time → RadiusEvent
stop session t = account (codes "Stop") session (codes "u1") t

abbrev empty : IdentityStore
empty = record { ip_state = λ _. none; mac_state = λ _. none; max_lease = 100; max_session = 50 }

abbrev leased : IpBinding
leased = record { mac_token = phone; event_time = 10; deadline = 110; closed = false }

abbrev released : IpBinding
released = record { mac_token = phone; event_time = 20; deadline = 120; closed = true }

abbrev opened : MacBinding
opened = record {
  user_token = codes "u1";
  session_id = codes "s1";
  event_time = 10;
  deadline = 60;
  closed = false;
}

abbrev stopped : MacBinding
stopped = record opened { event_time = 20; deadline = 70; closed = true }

abbrev with_lease : IpBinding → IdentityStore
with_lease b = record empty { ip_state = λ _. some b }

abbrev with_session : MacBinding → IdentityStore
with_session b = record empty { ip_state = λ _. some leased; mac_state = λ _. some b }

joined :
    lookup (run empty (dhcp (assign phone 10) ∷ radius (start (codes "s1") 12) ∷ [])) ip 30
    ≡ (phone, codes "u1")
unfolding program
joined = refl

expired : lookup (run empty (dhcp (assign phone 10) ∷ [])) ip 111 ≡ ([], [])
unfolding program
expired = refl

phone_ne_laptop : laptop ≢ phone
unfolding text_eq
phone_ne_laptop = ground (arith, text_eq_iff laptop phone)

handover_converges_example :
    ((apply_dhcp (apply_dhcp (with_lease leased) (release phone 20)) (assign laptop 20)).ip_state ip
      ≡ some (lease (assign laptop 20) 100 false))
    × ((apply_dhcp (apply_dhcp (with_lease leased) (assign laptop 20)) (release phone 20)).ip_state
          ip
        ≡ some (lease (assign laptop 20) 100 false))
handover_converges_example =
    handover_converges (with_lease leased) leased (release phone 20) (assign laptop 20) (record {
      held = refl;
      holder = refl;
      not_newer = omega arith;
      releases = refl;
      assigns = refl;
      same_ip = refl;
      same_time = refl;
      other_device = phone_ne_laptop;
      rel_known = refl;
      asg_known = refl;
    })

-- The assign of the released lease comes again, before and after a sweep removes the tombstone.
abbrev replay : List Op
replay = dhcp (assign phone 10) ∷ evict 130 ∷ dhcp (assign phone 10) ∷ radius (start phone 15) ∷ []

tombstone_holds_example : lookup (run (with_lease released) replay) ip 130 ≡ ([], [])
tombstone_holds_example =
    tombstone_holds (with_lease released) ip released 130 replay refl refl refl
      ((λ _. inl (omega arith)), (omega arith, ((λ _. inl (omega arith)), (tt, tt))))

release_before_assign_example :
    (lookup (apply_dhcp (apply_dhcp empty (release phone 20)) (assign phone 10)) ip 50).0 ≡ phone
release_before_assign_example =
    release_before_assign empty (release phone 20) (assign phone 10) 50 refl refl refl refl refl
      refl (omega arith) (omega arith)

abbrev late_starts : List Op
late_starts = radius (start (codes "s1") 15) ∷ evict 100 ∷ radius (start (codes "s1") 12) ∷ []

stopped_session_holds_example : (lookup (run (with_session stopped) late_starts) ip 100).1 ≡ []
unfolding program
stopped_session_holds_example =
    stopped_session_holds (with_session stopped) phone ip stopped 100 late_starts refl refl refl
      ((λ _. inl (omega arith)), (omega arith, ((λ _. inl (omega arith)), tt))) refl

abbrev history : List Op
history = dhcp (assign phone 10) ∷ evict 20 ∷ radius (start (codes "s1") 25) ∷ []

device_evidence_example :
    (until : Time) × LeasedBy history 100 ip
      (lookup (run (new_identity_store 100 50) history) ip 40).0
      until
    × (40 ≤ until)
unfolding program
device_evidence_example = device_evidence history 100 50 ip 40 (λ e. cc)

user_evidence_example :
    (until : Time) × OpenedBy history 50
      (lookup (run (new_identity_store 100 50) history) ip 40).0
      (lookup (run (new_identity_store 100 50) history) ip 40).1
      until
    × (40 ≤ until)
unfolding program
user_evidence_example = user_evidence history 100 50 ip 40 (λ e. cc)

abbrev buffered : EventWriter
buffered = record {
  dhcp = assign phone 10 ∷ release phone 20 ∷ [];
  radius = start (codes "s1") 12 ∷ [];
  max_buffer = 1;
}

-- The poller adds an event after the refused batches of the first attempt, and one after the count
-- of the second attempt.
abbrev second_time : ℕ → Round
second_time i = record {
  answer = record { dhcp_ok = i == 1; radius_ok = true };
  before_count = [];
  before_next = dhcp_added (assign phone 30) ∷ [];
}

flush-FlushLedger_example : FlushLedger (record { dhcp_ok = false; radius_ok = true }) buffered
flush-FlushLedger_example =
    flush-FlushLedger (record { dhcp_ok = false; radius_ok = true }) buffered

final_flush_delivers_example :
    ((final_flush second_time buffered 2).1 ≤ late_events 0 second_time 1)
    × ((final_flush second_time buffered 2).1 ≡ remaining (final_flush second_time buffered 2).0)
final_flush_delivers_example = final_flush_delivers second_time buffered 1 0 refl refl
