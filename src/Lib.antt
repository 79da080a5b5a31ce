-- ===== src/Lib.antt =====
-- AICL, a binary protocol for calls between modules, agents and models: a verification library.
--
-- The Python package (aicl/) has a binary codec (aicl/bin), transports (aicl/transport), semantic
-- codecs (aicl/semantic) and an SDK (aicl/sdk). The development models the following files.
--
-- Common: shared names, Boolean tests, lists measured by native numbers, integers, bit operations.
-- Py: what the code uses of Python itself. Py/Result: exceptions as values. Py/Struct, Py/Ints:
--   `struct` formats. Py/Utf8: `str.encode` and `bytes.decode`. Py/Float: floats as the 64 bits of
--   a double, with the conversions to single precision. Py/Crc: `zlib.crc32`.
-- Bin/Varint: aicl/bin/varint.py, `encode_varint` and `decode_varint`.
-- Bin/Symbol, Bin/Operands: aicl/bin/symbol_types.py and aicl/bin/operands.py. An operand is a tag
--   and a value of the Python type that the tag asks for; a value of another type is a TypeError.
-- Bin/Header: aicl/bin/header.py, aicl/bin/validation.py and aicl/bin/constants.py.
-- Bin/Types: the dataclasses of aicl/bin/types.py.
-- Bin/Packet: aicl/bin/codec_packet.py with the tags of aicl/bin/extension_tags.py.
-- Bin/View: aicl/bin/codec_view.py. Bin/Codec: aicl/bin/codec_api.py, `encode` and `decode`.
-- Bin/Ops: aicl/bin/ops.py, the operation codes.
-- Bin/Flags: the flags with `validate_flags` and the tests of a view's flags.
-- Bin/Access: the properties of PacketView that read extensions, and `decode_symbols`.
-- Bin/Streaming: aicl/bin/streaming.py. The loop of `feed` works on the bytes from `scan` on; it
--   runs on the number of bytes and one more, since every round takes a byte. An exception of
--   `decode` leaves `feed` with the data in the buffer, as in the code.
-- Transport/Memory, Transport/Ring: aicl/transport/shared_memory_ring.py on the bytes of the
--   segment.
-- Transport/Ring/Waits: the loops of the ring. A list of rounds says what the clock shows and what
--   the other end does between two tries; the loops end with the list or with the deadline.
-- Transport/Session: aicl/transport/session.py over any backend.
-- Sdk/Cancellation: aicl/sdk/_cancellation.py; each call is one step, since the token holds its
--   lock.
-- Transport/Address: aicl/transport/address.py. `parse` takes the value of a decimal digit of
--   Unicode from a parameter, since its pattern and `int` know more digits than 0 to 9.
-- Sdk/Capabilities: aicl/sdk/capabilities.py. `str.lower` is a parameter.
-- Sdk/Runtime: aicl/sdk/runtime.py, `connect`, `connect_any` and `close`, with `Model.close`. A
--   model is named by its position in the list of all models made, so that a replaced one is still
--   there.
-- Bin/Constants: the numbers of aicl/bin/errors.py and aicl/bin/identity.py.
-- Semantic/Intents: the intents of aicl/semantic/types.py with their opcodes, and their bytes in
--   aicl/semantic/fast_codec.py.
-- Py/Any, Py/Json, Py/Uuid, Py/Show, Py/Decimal: values of the type `Any`, `json.dumps` and
--   `json.loads`, `uuid.UUID` with `bytes.hex` and `bytes.fromhex`, `str` and `repr`, and decimal
--   numbers. How a finite float is printed and read, and the `repr` of a text, are parameters.
-- Semantic/Action, Semantic/Messages: the classes ModelAction, ModelObservation, ModelRequest and
--   ModelResult of aicl/semantic/types.py. A field holds any value unless a theorem says that it
--   has its annotated type.
-- Semantic/Wire, Semantic/FastCodec: aicl/semantic/fast_codec.py. Semantic/FastAction:
--   aicl/semantic/fast_action_codec.py, which has the same helpers; its counter is passed along.
-- Semantic/Adapter: aicl/semantic/adapter.py. Adapter.antt makes packets of actions,
--   Adapter/Inbound observations of packets, Adapter/Results packets of results, Adapter/Output
--   actions of the text of a model, and Adapter/Text the debug text of actions. The gate and the
--   ids of `uuid4` are arguments. It is composed with Bin/Codec: what one adapter sends is what
--   `encode` returns, and another one calls `decode` on it.
--
-- Bytes are lists of numbers. A position in a buffer is modelled by the bytes that are left, so
-- `decode_symbol` returns an operand with what follows it.
--
-- Bounds and fuel: a varint has four rounds, as in the code. The recursion of `decode_symbol` runs
-- on the length of the input, which is enough since every nested operand takes a tag byte.
-- `json.loads` runs on twice the length of the text and one more, since a nested value takes a
-- character and two steps.
--
-- Not modelled: the native implementations (core-rust, core-cpp, native-cpp) and their bindings,
-- the command line scripts, tests, examples and benchmarks; the grammar of aicl/semantic; the
-- results, calls and transports of aicl/sdk; the backends of aicl/transport, which open sockets and
-- pipes; memory views, which are read as bytes; Python's recursion limit and memory limits.
pub mod Bin
pub mod Common
pub mod Py
pub mod Sdk
pub mod Semantic
pub mod Transport
