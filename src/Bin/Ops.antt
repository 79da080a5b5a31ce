-- ===== src/Bin/Ops.antt =====
-- aicl/bin/ops.py: operation codes.
pub mod Ranges
use aicl.Common.{Bool, List, [], false, leb, ℕ, ◌&&◌, ◌==◌, ◌||◌, ◌∷◌}

abbrev pub op_nop : ℕ
op_nop = 0x00

abbrev pub op_hello : ℕ
op_hello = 0x01

abbrev pub op_goodbye : ℕ
op_goodbye = 0x02

abbrev pub op_discover : ℕ
op_discover = 0x03

abbrev pub op_ping : ℕ
op_ping = 0x04

abbrev pub op_pong : ℕ
op_pong = 0x05

abbrev pub op_ack : ℕ
op_ack = 0x06

abbrev pub op_nak : ℕ
op_nak = 0x07

abbrev pub op_error : ℕ
op_error = 0x08

abbrev pub op_cancel : ℕ
op_cancel = 0x09

abbrev pub op_version : ℕ
op_version = 0x0A

abbrev pub op_call : ℕ
op_call = 0x10

abbrev pub op_return : ℕ
op_return = 0x11

abbrev pub op_stream : ℕ
op_stream = 0x12

abbrev pub op_stream_end : ℕ
op_stream_end = 0x13

abbrev pub op_memory_read : ℕ
op_memory_read = 0x20

abbrev pub op_memory_write : ℕ
op_memory_write = 0x21

abbrev pub op_memory_delete : ℕ
op_memory_delete = 0x22

abbrev pub op_index_query : ℕ
op_index_query = 0x23

abbrev pub op_index_upsert : ℕ
op_index_upsert = 0x24

abbrev pub op_capability_advertise : ℕ
op_capability_advertise = 0x30

abbrev pub op_capability_withdraw : ℕ
op_capability_withdraw = 0x31

abbrev pub op_capability_query : ℕ
op_capability_query = 0x32

abbrev pub op_model_call : ℕ
op_model_call = 0x40

abbrev pub op_tool_call : ℕ
op_tool_call = 0x41

abbrev pub op_embed : ℕ
op_embed = 0x42

abbrev pub op_classify : ℕ
op_classify = 0x43

abbrev pub op_reason : ℕ
op_reason = 0x44

abbrev pub op_retrieve : ℕ
op_retrieve = 0x45

abbrev pub op_execute : ℕ
op_execute = 0x46

abbrev pub op_trace : ℕ
op_trace = 0x50

abbrev pub op_stats : ℕ
op_stats = 0x51

abbrev pub op_health : ℕ
op_health = 0x52

abbrev pub op_buffer_ref : ℕ
op_buffer_ref = 0x60

abbrev pub op_buffer_release : ℕ
op_buffer_release = 0x61

abbrev pub op_buffer_share : ℕ
op_buffer_share = 0x62

abbrev pub op_vendor_base : ℕ
op_vendor_base = 0xF0

-- The keys of OPERATION_NAMES. The names are for display.
abbrev pub operation_codes : List ℕ
operation_codes =
    op_nop ∷ op_hello ∷ op_goodbye ∷ op_discover ∷ op_ping ∷ op_pong ∷ op_ack ∷ op_nak ∷ op_error
    ∷ op_cancel ∷ op_version ∷ op_call ∷ op_return ∷ op_stream ∷ op_stream_end ∷ op_memory_read
    ∷ op_memory_write ∷ op_memory_delete ∷ op_index_query ∷ op_index_upsert
    ∷ op_capability_advertise ∷ op_capability_withdraw ∷ op_capability_query ∷ op_model_call
    ∷ op_tool_call ∷ op_embed ∷ op_classify ∷ op_reason ∷ op_retrieve ∷ op_execute ∷ op_trace
    ∷ op_stats ∷ op_health ∷ op_buffer_ref ∷ op_buffer_release ∷ op_buffer_share ∷ []

unfoldable pub is_listed : ℕ → List ℕ → Bool
is_listed opcode [] = false
is_listed opcode (c ∷ codes) = c == opcode || is_listed opcode codes

abbrev pub is_vendor_code : ℕ → Bool
is_vendor_code opcode = leb 0xF0 opcode && leb opcode 0xFF

unfoldable pub is_assigned : ℕ → Bool
unfolding is_listed
is_assigned opcode = is_listed opcode operation_codes || is_vendor_code opcode
