-- ===== src/Lib.antt =====
-- RayVault: packages of optical time-domain reflectometer traces. The library reads a package (a file
-- header, a directory and sections), decodes its sections into tables that lie in an arena, indexes
-- and caches them, and writes packages with a builder.
--
-- Parts and files; paths are from the root of the repository.
-- - Base: numbers, tests, lists, C integer types, bit operations.
-- - Endian: src/internal/rv_endian.h (rv_read_le16 .. rv_write_f32). A pointer into an array of bytes
--   is the list of bytes from there on; a read past the end is `none`.
-- - Crc: src/internal/rv_crc.c (rv_crc32_update is crc32_update, rv_hash32 is hash32).
-- - Arena: src/internal/rv_arena.c (rv_arena_alloc is alloc, and so on). A pointer is an offset in the
--   block `base`; the C heap is the parameter `Heap`, and what lies behind the pointers is not stored.
-- - Buf: src/internal/rv_buf.c (rv_buf_append is append). The parameter `grants` says which
--   allocations succeed.
-- - Records: the record types of src/internal/rv_format.h, their readers (of
--   src/internal/rv_section.c) and writers (of src/internal/rv_builder.c).
-- - Decoding: outcomes of a decoder (ok, err for -1, fault for an invalid access) and the arena that
--   is passed along.
-- - Section: src/internal/rv_section.c, the tables with fixed-size records and SUMM. The decoders
--   read bytes of a payload and take the room of their tables from Arena. Section/Blobs has SNAM and
--   WAVE, whose records vary in size, and the buckets of the names.
-- - Format: src/internal/rv_format.c, the file header and the entries of the directory.
-- - Reader: src/internal/rv_reader.c, the directory of a package in memory (load_directory), and the
--   sections found in it. It parses with Format and slices with Buf.
-- - Parser: src/internal/rv_parser.c, the parser over a Reader (rv_parser_step is step, rv_parser_run
--   is run), which calls the decoders of Section section by section. Parser/Sections and Parser/Steps
--   have its runs as relations.
-- - Dict: src/internal/rv_dict.c, the names of a decoded SNAM by id and by string, and the checks of
--   the references to them.
-- - Xref: src/internal/rv_xref.c and the lookups of src/internal/rv_index.c, the references between
--   the sections. It looks names up with Dict and ids with IdMap.
-- - Validate: src/internal/rv_validate.c and rv_footer.c, the checks of a package (Reader, Dict, Xref)
--   and the digest of its directory. Comparisons of floats are parameters.
-- - Stream: src/internal/rv_stream.c, streams and cursors over the windows of an index (Xref), and the
--   waves that they bring into the Cache and pin there.
-- - Builder: src/internal/rv_builder.c, the tables (rv_builder_add_* is add_*), the names
--   (Builder/Names), and the payloads of the sections (rv_b_append_* is append_*; SNAM and WAVE are in
--   Builder/Blobs, the others in Builder/Emit), written by Buf, and the assembly of a package
--   (Builder/Package: rv_builder_serialize is serialize).
-- - Export: src/internal/rv_export.c, a package from decoded tables (rv_export_build is
--   export_build), with the writers of Records, assembled as the builder does. The derived summary is
--   an input.
-- - Normalize: src/internal/rv_normalize.c and rv_recover.c, the pass over decoded tables and the repair.
-- - Query: src/internal/rv_query.c and the marker query of rv_index.c, over an index (Xref);
--   Query/Execute takes room from the Arena, and Query/Filter is src/internal/rv_filter.c. A position
--   past the windows is a fault there.
-- - Merge: src/internal/rv_merge.c, two decoded packages into one Builder (rv_merge_side is merge_side).
--   Merge/Spec says which rows each of them brings, record by record.
-- - Cache: src/internal/rv_cache.c, the cache of wave blocks. A pointer to an entry is its index.
-- - IdMap: src/internal/rv_index.c, the maps from ids to positions (rv_idmap_put is put) and the part
--   of rv_index_build that fills them. An access to an arena block that has moved is a fault.
-- - Picked: what a loop picks out of a list, independently of its tests, for Query and Merge.
-- Tests and runs on concrete inputs stand in the modules named Examples; Samples has what they share.
--
-- Numbers are natural numbers; an operation on a w-bit integer has its `% 2 ^ w` written out. A float is
-- its 32 bits. Pointer arguments are not NULL.
--
-- Loops with fuel: the doublings of a capacity. A capacity of rv_arena_grow or rv_buf_reserve has 64
-- bits, so 64 doublings (and one more round for the final test in rv_buf_reserve) are enough; a
-- capacity of rv_idmap_put has 32 bits, and 33 rounds are enough. All other loops follow a list.
--
-- A run of the parser has 13 steps. The buckets of the names double from 1 to at most 2 ^ 18, so 33
-- rounds are enough, and a probe of the buckets has as many rounds as there are buckets.
--
-- Dict, Xref, Validate, Stream, Query, Normalize, Export and Merge take the decoded tables, the maps of
-- the index and the order of a stream as values: that the arena's block, which they lie in, has not
-- moved since is a precondition. Query/Execute and Query/Filter name that block.
--
-- Comparisons of floats are parameters, and so is the C library's qsort, of which the theorems ask that
-- it permutes its array.
--
-- Not modelled: opening of packages and writing them to files, the upgrade of old packages, the
-- derived statistics and analytics, reports, configuration, checkpoints and sessions;
-- floating-point arithmetic; files, logs and callbacks.
pub mod Base
pub mod Endian
pub mod Crc
pub mod Arena
pub mod Buf
pub mod Records
pub mod Decoding
pub mod Section
pub mod Samples
pub mod Builder
pub mod Cache
pub mod IdMap
pub mod Export
pub mod Format
pub mod Reader
pub mod Picked
pub mod Parser
pub mod Dict
pub mod Xref
pub mod Merge
pub mod Normalize
pub mod Validate
pub mod Stream
pub mod Query
