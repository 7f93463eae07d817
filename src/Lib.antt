-- ===== src/Lib.antt =====
-- Kora, a memory engine for AI agents: Go code under internal, pkg and cmd.
--
-- A conversation or a single memory comes in over HTTP or gRPC (internal/auth decides who gets through
-- and how often, internal/service checks the arguments), is cut into memories (internal/extraction),
-- folded into what the project already holds, and stored with its links (internal/ingest,
-- internal/graph). A query runs three retrievers and ranks what they find (internal/retrieval,
-- internal/ranking). A job consolidates the store.
--
-- Files and what they model.
--   Text.antt, Text/*: the functions of Go's `strings` and maps with text keys. A text is a list of
--     code points. What Go takes from its Unicode tables, lower case and white space, is the parameter
--     `Unicode`; `IsUnicode` names what the theorems need of it.
--   Model/Content.antt: pkg/model/content.go (ContentTokens, ContentHash, IsContentHash) and
--     NormalizeEntity of pkg/model/entity.go. SHA-256 is the parameter `digest`; `IsDigest` says
--     that it returns 32 bytes. Model/Memory.antt: the types of memories and of relationships.
--   Extraction/Dedup.antt: internal/extraction/dedup.go (Subsumes, isOrderedSubsequence,
--     hasPolarityMarker, FoldRedundant, unionTags).
--   Auth/Keys.antt: internal/auth/keys.go. Auth/Bucket.antt, Auth/Limiter.antt, Auth/Gate.antt:
--     internal/auth/apikey.go (tokenBucket; the map of buckets and the accepted keys; HTTPMiddleware
--     and UnaryInterceptor), with the matcher of headers that cmd/server/main.go
--     gives to grpc-gateway as `incoming_header_matcher`. What grpc-gateway makes of it is a parameter.
--   Extraction/Contradiction.antt, with the words and shares in its child Words:
--     internal/extraction/contradiction.go (DetectContradictions, detectPair, extractTriples, refines,
--     keywordOverlap, tagOverlapRatio).
--   Ingest.antt: of internal/ingest/ingest.go consolidateAgainst, foldInto and detectAndSupersede. The
--     repository, the extractor, the embedder, the clock and the source of ids are the parameter
--     `Engine`, whose operations change a world and may fail. Ingest/Link.antt: autoLinkByTags.
--     Ingest/Duplicates.antt: existingByContent, with FindByContentHash of internal/graph/age.go.
--     Ingest/Vectors.antt: embedExtracted. Ingest/Write.antt: Store and Extract, which run all of
--     these; a slot of the answer is an extracted memory that is stored already or is to be written.
--   Embedding/Batch.antt: internal/embedding/batch.go; what a provider answers is a parameter.
--   Ranking.antt: internal/ranking/scorer.go (Score, RankResultsAt), with float64 as the parameter
--     `Floats`. Ranking/Entities.antt: EntityOverlap and EntityOverlapCount of
--     internal/ranking/relevance.go. Ranking/Relevance.antt: the rest of it, and
--     internal/ranking/bm25.go.
--   Retrieval.antt: of internal/retrieval/retrieval.go ParseQuery and the sizes of the pools.
--     Retrieval/Merge.antt: mergeResults. Retrieval/Answer.antt: retrieve, entityMatches and
--     flagSuperseded.
--   Service/Consolidate.antt: the types of internal/service/consolidate.go, and in its child Phases
--     the three phases and RunConsolidation, over the parameters `Repo` and `Floats`.
--   Service/Proto.antt: the messages of api/proto/kora/v1 and the converters of
--     internal/service/memory.go and session.go. Service/Handlers.antt, with the handlers in its child
--     Calls: the two services of these files, over the parameter `Backend`.
--   Service/Health.antt: internal/service/health.go.
--   Graph/Literals.antt: uuidLiteralList and isPlainUUID of internal/graph/age.go.
--   Server/Probes.antt: internal/server/probes.go, as a machine of marks and questions.
--   Config.antt: internal/config/config.go (Load, Validate), over the environment.
--   Tests.antt, Tests/*: runs at concrete inputs, and each theorem at one.
--
-- How it is modelled. A Go map is an association list in the order of iteration. A clock reading is
-- an argument, or is asked of the world. The methods of the rate limiter run under one mutex, so each
-- is one step. The token bucket counts in units of 1/60,000,000,000 of a token, in which its refill
-- is exact; the rounding of float64 is not modelled. Random bytes and base64 are parameters. A share,
-- which the source computes as a float64, is a numerator and a denominator that are compared exactly,
-- or goes through `Floats` where it is added to other numbers. A repository that notes its writes in
-- a log, or counts them, or a provider that notes its requests, is an instance of the parameter, and
-- the theorems on writes are about its log. An id is a number, in the order of its bytes, and 0 is
-- the nil UUID. The chunks of embedExtracted, which the source embeds concurrently, are embedded one
-- after the other. The loop of EmbedBatch over chunks has as fuel the number of texts, which is
-- enough since each round takes a text at least, and running out would be an error of its own,
-- `out_of_fuel`; the slices of embedExtracted have the number of memories, and are together all of
-- them (`chunks-concat`); every other loop is a structural recursion.
--
-- Not modelled: PostgreSQL, Apache AGE and most of the SQL of internal/graph; the HTTP clients of the
-- embedding and extraction providers; the extractors, which are a parameter of the write path; the
-- deadlines of contexts; the trace of a query; the texts of errors; protobuf encoding;
-- logging and metrics; the command line tools; the evaluation harness; the clients, the site and the
-- chart.
pub mod Prelude
pub mod Text
pub mod Model
pub mod Extraction
pub mod Auth
mod Tests
pub mod Embedding
pub mod Service
pub mod Ranking
pub mod Retrieval
pub mod Graph
pub mod Server
pub mod Config
pub mod Ingest
