-- ===== src/Lib.antt =====
-- The Marx and Engels retrieval assistant. Its search core: the evidence gate, retrieval units,
-- rank fusion, the grouping of evidence for claims, themes and timelines, and the four search
-- pipelines. And its ingestion of volumes: the splitting of a PDF into chunks, the mapping of their
-- pages, the run with its states and threads, the merging of pages, and the registry of
-- identifiers.
--
-- Parts and how they interact. A search pipeline (packages/marx_engels/pipelines) recalls
-- candidates, fuses and reranks them, and hands them to the evidence service
-- (packages/marx_engels/evidence), which reads the authoritative records through a repository and
-- is the only place that builds a public Evidence. The pipeline then groups the evidence: by
-- support label (claim), by theme (thematic), by decade (timeline). Retrieval units and rank
-- fusion (packages/marx_engels/retrieval_core) serve the recall. Ingestion
-- (packages/marx_engels/ingestion) plans ranges of pages, writes one file for each range, has a
-- provider parse the files while the state of every chunk is kept in a run, maps the pages of a
-- chunk back to those of the volume, merges them, and gives passages identifiers that survive a
-- new run.
--
-- Files and the code they model:
-- - Errors: packages/marx_engels/errors.py. An async function is a function into Result; Errors/Laws
--   has the conditions on what it returns.
-- - Contracts, Contracts/Enums, Contracts/Models: packages/marx_engels/contracts/enums.py and
--   search.py.
-- - Retrieval/Records: retrieval_core/records.py and the repository of ports.py. A mapping of
--   records is a function into Option.
-- - Retrieval/Units: retrieval_core/units.py. split_loop has the length of the text plus one as
--   fuel: each round removes at least one character.
-- - Retrieval/Rrf: retrieval_core/rrf.py. Floats are the type F with the operations of
--   Retrieval/Floats; a law of order is assumed only where a result speaks of order.
-- - Evidence/Matching: evidence/matching.py. match_loop has the length of the text plus one as
--   fuel: each round moves by the length of the query.
-- - Evidence/Gate and Evidence/Service: evidence/service.py. first_gate_failure is
--   _first_gate_failure with its tests in the order of the code, Gate/Reasons the condition behind
--   each reason; hydrate is
--   EvidenceService.hydrate; the three lists that its loop appends to are built from the back.
-- - Pipelines/Thematic: pipelines/thematic_grouping.py, thematic_types.py and thematic.py.
--   Grouping, Presentation and Judgments are the rules of the themes; dedupe_cluster_id tries as many
--   suffixes as there are identifiers in use, and one more. Ports has the collaborators of
--   ThematicPipeline, Recall its _recall and _merge_candidates, Relevance its relevance step, Steps
--   the clusters, labels and groups, Execute the execute method.
-- - Pipelines/Timeline: pipelines/timeline_grouping.py. CharacterDatabase stands for the tables
--   behind str.isdigit and int. Recall is _recall, _fuse_candidates and
--   _sanitize_reranked of pipelines/timeline.py, Ports its collaborators, Execute the reranking, the
--   summaries and the execute method.
-- - Pipelines/Routing: pipelines/query_router.py, registry.py and stub.py. A dictionary of
--   pipelines is a list of modes and pipelines.
-- - Pipelines/Exact: pipelines/exact.py, with the ports as a record and the integers of int()
--   abstract.
-- - Pipelines/Claim: pipelines/claim.py. Recall is _recall from the results of both coroutines on,
--   Fusion _fuse_candidates and _merge_by_id, Rerank _restrict_rerank, Classification
--   _parse_classifications and _apply_labels, Display the selection, the groups and the page,
--   Pipeline the steps and their recovery from errors, Execute the execute method.
-- - Corpus/Ids: corpus_registry/ids.py. An f-string of numbers is a concatenation of numerals.
-- - Ingestion/Failures: the exceptions of ingestion/mapping.py and splitting.py, and Outcome, a
--   condition on either result of a fallible step.
-- - Ingestion/Mapping: PageRangeMapping and ingestion/mapping.py. Ranges has the sorting and the
--   scan, Coverage what an accepted list of ranges is, Pages the lookup of a page.
-- - Ingestion/Splitting: ingestion/splitting.py. plan_loop has the number of pages as fuel: a
--   window is positive. fit_loop has the length of the range plus two: every attempt is shorter than
--   the one before. materialize_loop has the number of pages: each round starts at a later page. The PDF library, the
--   files and the estimates in floating point are the parameters SourcePdf, OutputDir and Budget; a
--   mapping file of the output folder that does not parse raises.
-- - Ingestion/Runs: ingestion/models.py, state.py and the loop over chunks of pipeline.py. Tasks
--   is a run and the calls that change it, process_chunk the work on one chunk as the list of the
--   states it saves, Schedule the threads: a step is one call under the lock, or the clearing
--   of a batch in memory that a thread does without it, in any order. Extract is the stage around
--   it.
-- - Ingestion/Merging: ingestion/page_merge.py, the choice of a run; Merging/Volume is _merge_volume
--   with RawPageRecord of layer_models.py. The pages that the files of a chunk hold are a parameter.
-- - Ingestion/Registry: ingestion/id_registry.py, a dictionary of entries in insertion order. The
--   fresh identifiers of uuid4 are passed in.
-- - Base: texts as lists of code points, dictionaries as lists of items in insertion order, sets of
--   identifiers as lists, stable sorting, decimal numerals. Tests: concrete runs.
--
-- Representation. A string is the list of its code points. A set that only answers membership is
-- a list. Numbers are natural numbers. A list of warnings that a function appends to is passed in
-- and returned.
--
-- Not modelled: the release providers of the claim pipeline without snapshot_for, the API, the
-- cleaning and the structure of volumes, printed pages and the reading of parsed blocks, the
-- inventory and the preflight of PDF files, the reading and writing of files, the storage, the
-- evaluation, and the web application. The details of a domain error are left out, and the Unicode
-- tables are a parameter.
pub mod Base
pub mod Errors
pub mod Contracts
pub mod Retrieval
pub mod Evidence
pub mod Corpus
pub mod Ingestion
pub mod Pipelines
pub mod Tests
