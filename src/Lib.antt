-- ===== src/Lib.antt =====
-- A model of the host-side core of q3, an inference engine for Qwen3 models in C: how a GGUF file
-- is opened, what its metadata answers, which of its tensors become resident and how the file is
-- read for them, how its weights are bound, how text becomes tokens, how JSON texts and workload
-- files are read, and how memory is counted.
--
-- The parts and the files that model them (paths are from the repository's root):
-- - Common: lists under native indices, results with an error, 64-bit words and their
--   little-endian bytes, texts as byte strings.
-- - Gguf: src/q3_gguf.c. Gguf.Cursor has the bounded cursor (q3_cursor and cursor_*), Gguf.Types
--   the tables of value and tensor types, Gguf.Value skip_value, Gguf.File the structures (q3_kv,
--   q3_tensor, q3_gguf), Gguf.Metadata parse_metadata, Gguf.Tensors parse_tensors, Gguf.Open
--   q3_gguf_open, Gguf.Access the accessors and array cursors.
-- - ResidencyPlan: src/q3_residency_plan.c, the planner: collecting entries, sorting them,
--   grouping them in spans.
-- - MemoryPlan: src/q3_main.c, the check of a plan (plan_validate) and the command that plans a
--   model (cmd_memory_plan).
-- - Json: src/io/hd_json.c, the JSON parser: strings with the buffer they are read into
--   (parse_string), numbers and values (Json.Values), arrays, objects and the depth limit
--   (Json.Parser).
-- - Residency: src/q3_residency.c, arenas and the accounting of tensors.
-- - Model: src/q3_model.c, the configuration that the metadata describes
--   (q3_model_config_from_gguf) and its check against the tensor table
--   (q3_model_config_validate).
-- - Binder: src/q3_binder.c, the binding of every weight by its name (q3_weights_bind), over the
--   loader's table of resident tensors.
-- - Tokenizer: src/q3_tokenizer.c. Tokenizer.Utf8 has put_utf8 and utf8_cp, Tokenizer.Symbols
--   bmap, bytelevel and byte_for_codepoint, Tokenizer.Pieces what one round of encode_text takes
--   off a text, Tokenizer.Merges mrank and the merges of encode_piece, Tokenizer.Vocab hs, lookup
--   and the part of addv behind the growth of the table, Tokenizer.Encode encode_piece,
--   encode_text, token_string and q3_tokenizer_decode, Tokenizer.Special normalize_nfc,
--   encode_special and q3_tokenizer_encode.
-- - Workload: src/q3_workload.c, the reader of workload files from their text on. Workload has
--   the strings, numbers, arrays and questions, Workload.Load the top level (q3_workload_load).
-- - Quant: src/q3_quant.c, its integer parts: half floats as bit patterns (q3_half_to_float) and
--   the packed scales of a block (scale_min_q4).
-- - Http: src/server/q3_server.c, where the head of a request ends (header_end).
-- - Memory: src/q3_memory.c, the allocation counters.
--
-- A function of the program keeps its name without the prefix q3_ and its module's. The reader
-- makes a container of the mapped bytes; the planner takes its tensor table; the command
-- validates the plan and prints it. The model configuration reads the container through the
-- accessors, and the binder takes the configuration, the tensor table and the resident tensors.
-- Nothing else is shared between the parts; the JSON parser reads requests and stands alone.
--
-- State is passed explicitly. A parser takes a cursor and returns the value with the cursor
-- behind it, or an error with the position: a failed read leaves nothing that the program reads
-- afterwards. The program writes into structures that calloc made; the model builds the same
-- structure as a record, with the tables as lists. Operations of the accounting return their
-- error with the state they leave, since some fail after a change. The answers of calloc are a
-- parameter, a function of the count and the size of an element; in the JSON parser, which asks
-- the same size many times, they are a function of the place and of what is asked. The
-- allocations of the tokenizer and of the workload reader are taken to succeed. What is freed,
-- and when, is not modelled. The callback that tells the excluded (PLE) tensors is a parameter
-- too.
--
-- Machine words are native numbers with the wrap-around written out (add64, sub64, mul64). A
-- float is its bit pattern. The loop of parse_string has a fuel of one round for each byte, which
-- is enough since each round reads one; so have the loops over arrays and objects. The loops of
-- the tokenizer over a text have a round for each byte of it and read one at least in each; a
-- search of the vocabulary that finds neither the text nor an empty slot in as many probes as
-- there are slots does not end in the program and says so in the model; the loop of the merges
-- has one for each symbol and leaves one less in each. The loops of the workload reader have a
-- round for each byte that is left. Loops over a count are structural recursions on it;
-- skip_value recurses on the depths that are left of its limit of 8 and parse_value on those of
-- its limit of 512, so every function is total.
--
-- Not modelled: system calls and the mapping's release, the accessors of JSON values, the growth
-- of the vocabulary and its reading from a file, the rendering of a chat, the text of messages
-- (an error is a constructor for each), null arguments, the arithmetic of floats, threads,
-- sockets and the GPU code.
pub mod Binder
pub mod Common
pub mod Gguf
pub mod Http
pub mod Json
pub mod Memory
pub mod Model
pub mod MemoryPlan
pub mod Quant
pub mod Residency
pub mod ResidencyPlan
pub mod Tokenizer
pub mod Workload
