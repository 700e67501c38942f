-- ===== src/CaptureWorker/Examples.antt =====
-- capture_worker.py on a few segments, packets and one DNS message.
use homelab_agent.Prelude.{
  ℕ, ◌+◌, ◌≤◌, ◌≡◌, ◌≢◌, refl, true, false, none, some, List, [], ◌∷◌, All, any, length, list_beq,
  nat_eq, list_eq,
}
use homelab_agent.Prelude.Text.{Text, text, text_le}
use homelab_agent.Prelude.Dict.{get, set}
use homelab_agent.Prelude.Result.{ok, err}
use homelab_agent.CaptureWorker.Health.{
  Key, Segment, check, judge, moved, answered, follow, acknowledge, key_same, retransmit, gap,
}
use homelab_agent.CaptureWorker.Order.{check_all, in_order, IsQuiet, check_all-in_order}
use homelab_agent.CaptureWorker.Flows.{
  Packet, flow_key, service, see, tick, count, count_flow, list_packet, bump_all, flow_key_same,
  issue_same, start_of,
}
use homelab_agent.CaptureWorker.Balance.{started, packet_seen, listed_by}
use homelab_agent.CaptureWorker.Ticks.{IsTick, tick-IsTick}
use homelab_agent.CaptureWorker.Dns.{
  Bytes, dns_name, name_from, part_at, decode_ascii, word_at, answer_of, read_answer, read_answers,
  parse_question, parse_dns, Failure, out_of_fuel, truncated, Summary, address, ipv4, Address,
  max_answers,
}
use homelab_agent.CaptureWorker.Dns
use homelab_agent.CaptureWorker.Names.{IsWithin, dns_name-IsWithin}
use homelab_agent.CaptureWorker.Answers.{IsFound, parse_question-IsFound}

running : Unit {0}
unfolding check judge moved answered follow acknowledge key_same check_all in_order get set list_beq
    any flow_key text_le service see count count_flow list_packet bump_all flow_key_same issue_same
    dns_name name_from part_at decode_ascii word_at answer_of read_answer read_answers
    parse_question parse_dns
running = tt

abbrev browser : Key
browser = record { src = text "10.0.0.2"; sport = 4000; dst = text "10.0.0.9"; dport = 443 }

-- forty bytes at this number
abbrev sent : ℕ → Segment
sent seq = record {
  key = browser;
  seq = seq;
  ack = 7;
  win = 500;
  plen = 40;
  syn = false;
  fin = false;
  rst = false;
  has_ack = true;
}

-- the sequence number wraps around
abbrev wrapping : List Segment
wrapping = sent 4294967280 ∷ sent 24 ∷ sent 64 ∷ []

health_tests :
    (check_all [] wrapping ≡ (sent 4294967280, []) ∷ (sent 24, []) ∷ (sent 64, []) ∷ [])
    × (check_all [] (sent 0 ∷ sent 80 ∷ []) ≡ (sent 0, []) ∷ (sent 80, gap ∷ []) ∷ [])
    × (check_all [] (sent 0 ∷ sent 0 ∷ []) ≡ (sent 0, []) ∷ (sent 0, retransmit ∷ []) ∷ [])
unfolding running
health_tests = (refl, refl, refl)

check_all-in_order_example : All (IsQuiet browser) (check_all [] wrapping)
unfolding running
check_all-in_order_example = check_all-in_order browser wrapping refl

abbrev page : Packet
page = record {
  proto = text "TCP";
  src = text "10.0.0.9";
  sport = some 443;
  dst = text "10.0.0.2";
  dport = some 4000;
  app = none;
  name = none;
  size = 1500;
  is_out = true;
  issues = retransmit ∷ [];
}

tick-IsTick_example :
    IsTick
      (0 + listed_by (see 1 300 page (start_of 0)).1)
      (page ∷ [])
      (tick (see 1 300 page (start_of 0)).0).0
tick-IsTick_example =
    tick-IsTick 1 (0 + listed_by (see 1 300 page (start_of 0)).1) (page ∷ [])
      (see 1 300 page (start_of 0)).0 (packet_seen 300 0 [] page (start_of 0) (started 0))

-- A a.b → 1.2.3.4, the answer's name as a pointer to the question's
abbrev reply : Bytes
reply =
    0 ∷ 9 ∷ 129 ∷ 128 ∷ 0 ∷ 1 ∷ 0 ∷ 1 ∷ 0 ∷ 0 ∷ 0 ∷ 0 ∷ 1 ∷ 97 ∷ 1 ∷ 98 ∷ 0 ∷ 0 ∷ 1 ∷ 0 ∷ 1 ∷ 192
    ∷ 12 ∷ 0 ∷ 1 ∷ 0 ∷ 1 ∷ 0 ∷ 0 ∷ 0 ∷ 60 ∷ 0 ∷ 4 ∷ 1 ∷ 2 ∷ 3 ∷ 4 ∷ []

dns_tests :
    (dns_name reply 12 ≡ ok (text "a" ∷ text "b" ∷ [], 17))
    × (dns_name reply 21 ≡ ok (text "a" ∷ text "b" ∷ [], 23))
    × (dns_name (192 ∷ 0 ∷ []) 0 ≡ ok ([], 2))
    × (dns_name (5 ∷ 97 ∷ []) 0 ≡ err truncated)
unfolding running
dns_tests = (refl, refl, refl, refl)

dns_name-IsWithin_example :
    (dns_name reply 21 ≢ err out_of_fuel)
    × ((answer : List Text × ℕ) → dns_name reply 21 ≡ ok answer → IsWithin reply 21 answer.1)
dns_name-IsWithin_example = dns_name-IsWithin reply 21

abbrev asked : List Text
asked = text "a" ∷ text "b" ∷ []

abbrev mapped : Summary × List (List Text × Address)
mapped = (
  Dns.answered 1 asked (address (ipv4 (1 ∷ 2 ∷ 3 ∷ 4 ∷ [])) ∷ []) false,
  (asked, ipv4 (1 ∷ 2 ∷ 3 ∷ 4 ∷ [])) ∷ [],
)

parse_question-IsFound_example : All (IsFound asked) mapped.1 × (length mapped.1 ≤ 8)
unfolding running
parse_question-IsFound_example = parse_question-IsFound reply 33152 1 (asked, 17) mapped refl refl
