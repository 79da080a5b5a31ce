-- ===== src/Transport/Runs.antt =====
-- Concrete runs of aicl/transport, and the theorems at concrete inputs.
use aicl.Common.{
  List, Option, [], arith, false, if◌then◌else◌, is_some, leb, length, none, refl, some, true, ℕ,
  ◌&&◌, ◌++◌, ◌+◌, ◌-◌, ◌<◌, ◌==◌, ◌∷◌, ◌≡◌, ◌⊎◌,
}
use aicl.Py.Decimal.{decimal_of, show_number}
use aicl.Py.Result.{err, ok, ring_empty, ring_full, transport_error, value_error}
use aicl.Py.Struct.{Bytes, be, from_be}
use aicl.Py.Utf8.{Str}
use aicl.Transport.Address.{
  Address, int_of, is_local, is_network, match_host, match_ipv6, match_line, match_port, match_uri,
  new_address, parse, read_digits, run_until, scan_scheme, show_address, tcp, unix,
}
use aicl.Transport.Address.Parsed.{IsParsed, parse-IsParsed}
use aicl.Transport.Memory.{put, read, write}
use aicl.Transport.Ring.{
  Ring, attach, clear_slots, create, pop_nowait, push_nowait, ring_magic, slot_offset,
}
use aicl.Transport.Ring.Create.{create-Holds}
use aicl.Transport.Ring.Queue.{Holds}
use aicl.Transport.Ring.Refine.{pop_nowait-Holds, push_nowait-Holds}
use aicl.Transport.Ring.Trace.{Steps-fifo, no_calls, pop_then, push_then}
use aicl.Transport.Session.{
  Backend, Call, client, closes, connects, new_session, receives, run, sends,
}
use aicl.Transport.Session.States.{run_is_open}

-- A new ring of two slots of sixteen bytes, in a segment that held sevens.
abbrev ring0 : Ring
ring0 = record {
  memory = clear_slots 2 16 2 (write 0 (ring_magic ++ (be 8 2 ++ be 8 16)) (λ x. 7));
  capacity = 2;
  slot_size = 16;
  write_idx = 0;
  read_idx = 0;
}

abbrev message : Bytes
message = 0x68 ∷ 0x69 ∷ []

abbrev ring1 : Ring
ring1 = record {
  memory = put 20 1 (write 25 message (write 21 (be 4 2) ring0.memory));
  capacity = 2;
  slot_size = 16;
  write_idx = 1;
  read_idx = 0;
}

abbrev ring2 : Ring
ring2 = record {
  memory = put 20 0 ring1.memory;
  capacity = 2;
  slot_size = 16;
  write_idx = 1;
  read_idx = 1;
}

ring0_made : create 2 16 (λ x. 7) ≡ ok ring0
unfolding create
ring0_made = refl

ring0-Holds : Holds ring0 []
unfolding clear_slots slot_offset put
ring0-Holds = record {
  some_slots = omega arith;
  slot_room = omega arith;
  cursors = refl;
  few = omega arith;
  stored = tt;
  free = (refl, (refl, tt));
}

pushed_once : push_nowait message ring0 ≡ ok ring1
unfolding push_nowait slot_offset clear_slots put write be
pushed_once = refl

popped_once : pop_nowait ring1 ≡ ok (message, ring2)
unfolding pop_nowait slot_offset clear_slots put write read be from_be
popped_once = refl

abbrev no_messages : List Bytes
no_messages = []

create-Holds_example :
    (r : Ring) × (create 2 16 (λ x. 7) ≡ ok r) × Holds r [] × (attach r.memory ≡ ok (2, 16))
create-Holds_example =
    create-Holds 2 16 (λ x. 7) (omega arith) (omega arith) (omega arith) (omega arith)

push_nowait-Holds_example :
    ((0 < 2) × (r' : Ring) × (push_nowait message ring0 ≡ ok r') × Holds r' (message ∷ []))
    ⊎ ((length {A = Bytes} [] ≡ 2) × (push_nowait message ring0 ≡ err ring_full))
push_nowait-Holds_example =
    push_nowait-Holds ring0 [] message ring0-Holds (omega arith) (omega arith)

pop_nowait-Holds_example :
    ((m : Bytes) × (left : List Bytes) × (no_messages ≡ m ∷ left)
      × (r' : Ring) × (pop_nowait ring0 ≡ ok (m, r'))
      × Holds r' left)
    ⊎ ((no_messages ≡ []) × (pop_nowait ring0 ≡ err ring_empty))
pop_nowait-Holds_example = pop_nowait-Holds ring0 [] ring0-Holds

Steps-fifo_example : (q : List Bytes) × Holds ring2 q × (message ∷ [] ≡ message ∷ q)
Steps-fifo_example =
    Steps-fifo [] (push_then message pushed_once (pop_then message popped_once no_calls))
      ring0-Holds

-- A backend that counts its calls and loses the third.
abbrev counting : Backend ℕ
counting = record {
  backend_send = λ d n. ((if n == 2 then err transport_error else ok (length d)), n + 1);
  backend_recv = λ n. (ok (n ∷ []), n + 1);
}

abbrev some_calls : List Call
some_calls = connects ∷ sends message ∷ receives ∷ sends message ∷ closes ∷ receives ∷ []

run_is_open_example :
    ((run counting some_calls (new_session client (some 0))).role ≡ client)
    × (is_some (run counting some_calls (new_session client (some 0))).transport ≡ true)
    × ((run counting some_calls (new_session client (some 0))).is_open ≡ false)
run_is_open_example = run_is_open counting some_calls (new_session client (some 0))

-- The digits of ASCII only.
abbrev ascii_digit : ℕ → Option ℕ
ascii_digit c = if leb 0x30 c && leb c 0x39 then some (c - 0x30) else none

-- tcp://ab:8080
abbrev an_address : Address
an_address = record { scheme = tcp; path = []; host = some (0x61 ∷ 0x62 ∷ []); port = some 8080 }

show_an_address :
    show_address an_address
    ≡ 0x74 ∷ 0x63 ∷ 0x70 ∷ 0x3A ∷ 0x2F ∷ 0x2F ∷ 0x61 ∷ 0x62 ∷ 0x3A ∷ 0x38 ∷ 0x30 ∷ 0x38 ∷ 0x30 ∷ []
unfolding show_address show_number decimal_of
show_an_address = refl

-- tcp://[::1]:80, whose host keeps no brackets and is printed without them.
abbrev an_ipv6_uri : Str
an_ipv6_uri =
    tcp ++ (0x3A ∷ 0x2F ∷ 0x2F ∷ 0x5B ∷ 0x3A ∷ 0x3A ∷ 0x31 ∷ 0x5D ∷ 0x3A ∷ 0x38 ∷ 0x30 ∷ [])

abbrev an_ipv6_address : Address
an_ipv6_address = record {
  scheme = tcp;
  path = [];
  host = some (0x3A ∷ 0x3A ∷ 0x31 ∷ []);
  port = some 80;
}

parse_ipv6 : parse ascii_digit an_ipv6_uri ≡ ok an_ipv6_address
unfolding parse match_uri match_ipv6 match_port read_digits run_until int_of is_network is_local
    new_address scan_scheme match_line
parse_ipv6 = refl

parse-show_ipv6 : parse ascii_digit (show_address an_ipv6_address) ≡ err value_error
unfolding parse match_uri match_ipv6 match_host match_port read_digits run_until int_of is_network
    is_local new_address scan_scheme match_line show_address show_number decimal_of
parse-show_ipv6 = refl

-- unix:// has an empty path and is printed as a text that names a file.
parse-show_no_path :
    parse ascii_digit (show_address (record { scheme = unix; path = []; host = none; port = none }))
    ≡ ok (record { scheme = unix; path = unix ++ (0x3A ∷ []); host = none; port = none })
unfolding parse match_uri scan_scheme show_address new_address is_local is_network
parse-show_no_path = refl

parse-IsParsed_example : IsParsed an_ipv6_address
parse-IsParsed_example = parse-IsParsed ascii_digit an_ipv6_uri an_ipv6_address parse_ipv6
