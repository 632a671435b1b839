-- ===== src/Lib.antt =====
-- MaruPop, a pop-up dictionary: the parts that decide what it shows, modelled and proved.
--
-- A pointer event goes through the throttle of src/scan to a grab of the screen, whose recognition
-- result is kept in the scan cache; the text under the pointer is deconjugated and looked up in
-- dictionary stores, which hold records as CBOR payloads.
--
-- Dict: src/dict. Records.antt has the record shapes of dict/records.h, one record to a
-- struct, and the variant as a data type; Records/Queries.antt has the functions of dict/records.cpp,
-- and Records/Classes.antt the proofs about them. Cbor.antt is the interface of the CBOR library of
-- Qt: its writer's calls as data, its reader as a parameter (`Cbor`), and what Qt documents of a reader over
-- written calls (`CborLaws`). Codec/Encoder.antt and Codec/Decoder.antt are the two classes of
-- dict/codec.cpp, Codec/Payload.antt its decode functions, header and entry points. The proofs are
-- in Codec/Codes.antt (what it is to read what was written), Codec/Fields.antt, Codec/Shapes.antt,
-- Codec/Kinds.antt, Codec/RoundTrip.antt and Codec/Header.antt. Codec/FailFast.antt and
-- Codec/FailFast/Kinds.antt are a reader without a flag, which the decoder is compared with in
-- Codec/FailFast/Refines.antt and Codec/ShortCircuit.antt.
-- KeyFilter.antt is the sidecar of key hashes of dict/keyfilter.cpp, from the
-- writer to the reader, with the answers of the file calls as arguments; KeyFilter/Search.antt,
-- KeyFilter/Sorting.antt, KeyFilter/RoundTrip.antt, KeyFilter/NoMiss.antt and KeyFilter/Bounds.antt are about it.
-- Scan: src/scan. Throttle.antt is the class Throttle of scan/throttle.cpp with its timer and the
-- clock's readings as arguments; Cache.antt is the class ScanCache of scan/scancache.cpp.
--
-- Deconj: src/deconj. Rules.antt is the rule set of deconj/deconjugator.cpp, from its JSON to the
-- buckets, Search.antt is deconjugate() with what it calls, and Process.antt has the process nodes and
-- the texts that show them. Rules/Buckets.antt, Search/Fewest.antt, Search/Derivation.antt,
-- Search/Ends.antt, Search/Result.antt and Process/Rendering.antt state what the parts are compared with:
-- lists of virtual rules, the forms of the fewest steps, derivations, ranks of tags and joined texts.
-- The other children of Search.antt are the proofs' steps.
--
-- Lookup: src/lookup. Ranking.antt has the scores of lookup/ranking.cpp and Ranking/Compare.antt its
-- comparisons, one criterion after the other, with the shapes of lookup/lookuptypes.h. Engine.antt is the
-- closure of Engine::lookupUncached() in lookup/engine.cpp that cuts, decorates, sorts and limits results,
-- with the frequency half of lookup/decorate.cpp and std::stable_sort written out. Ranking/Weak.antt says
-- what a strict weak order is, Ranking/Orders.antt and Ranking/Cycle.antt are about the comparisons, and
-- Engine/Sorting.antt, Engine/Stable.antt, Engine/Ties.antt and Engine/Cut.antt about the cut.
--
-- Ocr: src/ocr. Wire.antt is the reader of ocr/screenaiproto.cpp, with the loop over fields that its
-- parsers share, Split.antt is appendSplitCharBoxes(), ScreenAi.antt has the parsers, and Shapes.antt
-- the shapes of ocr/ocrtypes.h with what is called of Qt. Wire/Format.antt writes the protobuf format,
-- as what the parsers are compared with. HitTest.antt is ocr/hittest.cpp, with HitTest/Gaps.antt,
-- HitTest/Hits.antt and HitTest/Answers.antt about it. The other proofs are in Wire/Bounds.antt, Wire/Invariant.antt,
-- Wire/Varint.antt, Wire/Steps.antt, Split/Tiling.antt, ScreenAi/Ends.antt, ScreenAi/Aligned.antt and
-- ScreenAi/Messages.antt.
--
-- Popup: src/popup. Placement.antt is popup/placement.cpp, with Placement/Inside.antt about the clamp,
-- Placement/Bands.antt about the bands and Placement/Avoiding.antt about both.
--
-- Numbers. A QString is the list of its UTF-16 code units, a double is its 64-bit pattern, an int
-- is a signed integer with its range as a hypothesis, and a conversion between widths wraps. A
-- payload carries a text as UTF-8, so the theorems on what is written and read again are about
-- texts without an unpaired surrogate. Readings of the clock and the mirrored count of a frequency
-- are exact.
-- Fuel. A list of a payload takes as many rounds as bytes remain, and one more, since every element
-- is a byte at least. Skipping what a container has left takes twice the remaining bytes and two.
-- Where the fuel of either would end, the decoder fails. A protobuf scope gives its loop as many
-- rounds as it has bytes, since every field is a byte at least, and running out is an outcome of
-- its own. The binary search has as many rounds as there are hashes, and each halves what is left.
-- The eviction loop of the cache has as many rounds as entries. The search of deconjugate() has a
-- round for each generation: where rules without a proper detail lead down in ranks of tags up to a
-- bound, eight generations for each rank, and one more, are enough, since a path has eight proper
-- steps at most; the rules of the repository have such ranks up to three.
--
-- Not modelled: the SQLite store, the importers, the queries of the lookup engine, the user
-- interface, the capture and platform bindings and the recognition backends; log messages; memory
-- management.
pub mod Prelude
pub mod Deconj
pub mod Dict
pub mod Lookup
pub mod Ocr
pub mod Popup
pub mod Scan
