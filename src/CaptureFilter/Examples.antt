-- ===== src/CaptureFilter/Examples.antt =====
-- capture_filter.py: runs of `compile_filter`, and the theorems at concrete filters.
use homelab_agent.Prelude.{
  ℕ, zero, suc, ◌++◌, ◌≡◌, ◌≢◌, ◌&&◌, refl, Bool, true, false, none, some, List, [], ◌∷◌, arith,
  contains, list_beq, All, all, any,
}
use homelab_agent.Prelude.Text.{Text, text, lower, is_decimal, int, int_from, strip}
use homelab_agent.Prelude.Result.{Result, ok, err}
use homelab_agent.CaptureFilter.Tokens.{
  FilterError, out_of_fuel, tokens, scan, next_token, is_word_char, is_single, trailing, not_a_port,
  too_long,
}
use homelab_agent.CaptureFilter.Packet.{
  IpLibrary, Packet, Predicate, conjunction, side, protocol, direction_of, upper,
}
use homelab_agent.CaptureFilter.Parser.{
  ◌>>=◌, pure, raise, or_raise, if_next, choose, take_token, next_in, with_rounds, peek,
}
use homelab_agent.CaptureFilter.Primitive.{
  primitive, qualified, condition, directed, selector, range_of, port, port_condition, issue_of,
  has_ports,
}
use homelab_agent.CaptureFilter.Grammar.{
  more_parts, parts_of, any_of, all_of, and_expr, or_expr, close, unary, parse, finish,
  compile_filter,
}
use homelab_agent.CaptureFilter.Syntax.{
  Unary, Ors, atom, negated, grouped, single, also, only, either, write_ors, ors_hold, ors_nesting,
  IsCondition,
}
use homelab_agent.CaptureFilter.Combine.{combine, just_expr, compile_filter-combine}
use homelab_agent.CaptureFilter.Scan.{IsToken, word, one, spell}
use homelab_agent.CaptureFilter.Total.{compile_filter-ne-out_of_fuel}
use homelab_agent.CaptureFilter.Compile.{compile_filter-spell}
use homelab_agent.CaptureFilter.Condition.{
  any_carrier, tcp, port_words, port-IsCondition, port-has_port, is_carried, has_port,
}

-- an address library that knows a single address and no network
instance abbrev one_address : IpLibrary
one_address = record {
  Address = Text;
  Network = Unit {0};
  ip_address = λ value. some value;
  show = λ value. value;
  ip_network = λ spec. none;
  inside = λ value net. false;
}

abbrev web : Packet
web = record {
  ip = some 4;
  proto = some (text "TCP");
  app = some (text "http");
  src = some (text "10.0.0.5");
  dst = some (text "1.1.1.1");
  sport = some 51234;
  dport = some 443;
  src_mac = none;
  dst_mac = none;
  size = some 60;
  issues = [];
  sni = none;
  name = none;
}

running : Unit {0}
unfolding compile_filter strip tokens parse finish unary or_expr and_expr close parts_of more_parts
    any_of all_of primitive qualified condition directed selector range_of port port_condition
    issue_of has_ports ◌>>=◌ pure raise or_raise if_next choose take_token next_in with_rounds peek
    lower contains list_beq is_decimal all any conjunction scan next_token int_from side protocol
    direction_of upper
running = tt

abbrev answer : Text → Packet → Result FilterError Bool
answer source p = elim (compile_filter source) [ ok f ↦ ok (f p) | err e ↦ err e ]

run_tests :
    (answer (text " host 10.0.0.5 and port 443 ") web ≡ ok true)
    × (answer (text "udp or TCP && ! dst port 443") web ≡ ok false)
    × (answer (text "not (port 22 or port 53)") web ≡ ok true)
    × (answer (text "port 70000") web ≡ err (not_a_port (text "70000")))
    × (answer (text "port 22 port 53") web ≡ err (trailing (text "port")))
unfolding running
run_tests = (refl, refl, refl, refl, refl)

-- port 443 or not (tcp port 22) and port 80
abbrev https : Unary
https = atom (port_words any_carrier none (text "443")) (port_condition none none (443, 443))

abbrev ssh : Unary
ssh = atom (port_words tcp none (text "22")) (port_condition (some (text "tcp")) none (22, 22))

abbrev sample : Ors
sample = either (single https) (only (also (negated (grouped (only (single ssh)))) (single https)))

https_IsCondition :
    IsCondition (port_words any_carrier none (text "443")) (port_condition none none (443, 443))
unfolding int_from is_decimal
https_IsCondition = port-IsCondition any_carrier none (text "443") refl (omega arith) (omega arith)

ssh_IsCondition :
    IsCondition (port_words tcp none (text "22")) (port_condition (some (text "tcp")) none (22, 22))
unfolding int_from is_decimal
ssh_IsCondition = port-IsCondition tcp none (text "22") refl (omega arith) (omega arith)

abbrev sample_tokens : List Text
sample_tokens =
    text "port"
    ∷ text "443"
    ∷ text "or"
    ∷ text "not"
    ∷ text "("
    ∷ text "tcp"
    ∷ text "port"
    ∷ text "22"
    ∷ text ")"
    ∷ text "and"
    ∷ text "port"
    ∷ text "443"
    ∷ []

sample_IsToken : All IsToken sample_tokens
unfolding all is_word_char is_single
sample_IsToken = (
  word _ _ refl,
  (
    word _ _ refl,
    (
      word _ _ refl,
      (
        word _ _ refl,
        (
          one _ refl,
          (
            word _ _ refl,
            (
              word _ _ refl,
              (word _ _ refl, (one _ refl, (word _ _ refl, (word _ _ refl, (word _ _ refl, tt))))),
            ),
          ),
        ),
      ),
    ),
  ),
)

compile_filter-spell_example : compile_filter (spell (write_ors sample [])) ≡ ok (ors_hold sample)
unfolding write_ors ors_nesting spell
compile_filter-spell_example =
    compile_filter-spell sample (https_IsCondition, (ssh_IsCondition, https_IsCondition))
      (omega arith) sample_IsToken (omega arith)

compile_filter-ne-out_of_fuel_example : compile_filter (text "not (tcp") ≢ err out_of_fuel
compile_filter-ne-out_of_fuel_example = compile_filter-ne-out_of_fuel (text "not (tcp")

port-has_port_example :
    (f : Predicate) × IsCondition (port_words tcp none (text "22")) f
    × ((p : Packet) → f p ≡ (is_carried tcp p && has_port none (int (text "22")) p))
unfolding int_from is_decimal
port-has_port_example = port-has_port tcp none (text "22") refl (omega arith) (omega arith)

abbrev blanks : ℕ → Text
blanks zero = []
blanks (suc n) = 32 ∷ blanks n

-- 299 characters
abbrev wide : Text
wide = text "cp" ++ (blanks 290 ++ text "or tcp")

compile_filter-combine_example :
    (whole : Text) × (combine (just_expr (116 ∷ wide)) ≡ some whole)
    × (compile_filter whole ≡ err too_long)
compile_filter-combine_example = compile_filter-combine 116 wide (omega arith)

is_accepted : Text → Bool
is_accepted source = elim (compile_filter source) [ ok f ↦ true | err e ↦ false ]

wide_test : is_accepted (116 ∷ wide) ≡ true
unfolding running is_accepted
wide_test = refl
