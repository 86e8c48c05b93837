-- ===== src/Lib.antt =====
-- clued keeps the story of a code base for its agents. This library models parts of its Go module
-- `mind-palace` and proves what makes them correct.
--
-- Parts, and the files that model them:
--
--   The token file, `mind-palace/server/auth/auth.go`
--     Auth/Token        Token, Principal, the constants, what comes from outside
--     Auth/Projects     AllowProject, CoversAllProjects, cleanProjects
--     Auth/Load         load and the tests it makes of a file
--     Auth/File         the state (*File) with Create, Revoke, Grant and save
--     Auth/Keys         CreateEnvironmentKey and Exchange with allowExchange and freeName
--     Auth/Bearer       what the Authorization header holds
--     Auth/Lookups      Lookup, and that it returns only what a listed token backs
--     Auth/Minting      Lookup after Create and after Exchange
--     Auth/Revocation   Lookup after Revoke, and the tokens of a revoked key
--     Auth/Names        the names in the file stay distinct under every call
--     Auth/RateLimit    the limit on exchanges against a window over the whole history
--
--   Login by device code, `mind-palace/server/device/device.go`
--     Device/Codes      the alphabet, randomUserCode, the loop that draws a code, Normalize, Format
--     Device/Flow       the state (*Flow) with New, Start, Poll, Deny, Pending and their helpers
--     Device/Grantable  grantable
--     Device/Tokens     what the flow asks of a token file (the interface Tokens), as a record
--     Device/Approval   Approve with mint, and RevokeToken, over that interface
--     Device/TokenStore the token file of Auth fills that interface
--     Device/Invariant  the two maps of the flow agree
--     Device/Calls      what each call does to the requests
--     Device/Answers    what Poll answers for a request
--     Device/Handover   Approve and then Poll
--     Device/History    any sequence of calls
--     Device/Spelling   Normalize and Format, and that the loop of Start ends
--
--   Storage, `mind-palace/store/store.go` and `mind-palace/store/memstore/memstore.go`
--     Store/Leases      MemLeases (AcquireLease, ReleaseLease) and LeaseLock
--     Store/Exclusion   leases exclude each other
--     Store/Plugin      what a storage plugin offers (the interfaces Store and ConditionalPutter)
--                       and the function PutIf; what MultiStore relies on, and a fuller contract
--     Store/Multi       MultiStore: fanout, Put, PutIf and Delete
--     Store/Optimistic  PutIf on one store
--     Store/Fanning     PutIf on all stores
--     Store/Memory      the memory plugin's documents: Get, Put, PutIf, Delete, List
--     Store/MemoryLaws  the memory plugin keeps that contract
--
--   Documents, `mind-palace/model/model.go` and `mind-palace/kind/kind.go`
--     Model             Document with its front matter, and the names of the kinds
--     Model/Linking     the links of a document, and filterLinks of `mind-palace/service/links.go`
--     Model/Ids         IDRe, SlugRe, FileNameRe, NormalizeID, Slugify, FileName, ParseFileName
--     Model/Slugs       what Slugify returns
--     Model/FileNames   ParseFileName on what FileName writes
--
--   The settings of a kind, `mind-palace/config/config.go`
--     Config            KindConfig with validate, the workflow and the Normalize functions
--     Config/Defaults   DefaultPlans and DefaultStories
--     Config/Workflow   what validate ensures of the workflow
--
--   Markdown content, `mind-palace/markdown/markdown.go` and `mind-palace/markdown/sections.go`
--     Markdown          Lines with its fences, the headings, FindSection, FirstH1, SetH1
--     Markdown/Criteria the acceptance criteria: Criteria, CriteriaProblems, SetCriterion,
--                       AddCriterion, RemoveCriterion
--     Markdown/WorkLog  AppendWorkLog and WorkLogEntries
--     Markdown/Numbers  SectionNumbers and HasSection
--     Markdown/FrontMatter  Split and Render, without the YAML of the front matter
--     Markdown/Rows     assigning to one place of a list
--     Markdown/Items    the lines that checkItemRe matches
--     Markdown/Marking  what one changed line leaves as it is
--     Markdown/Setting  Criteria after SetCriterion
--
--   The plan and story services, `mind-palace/service`, with the kinds of
--   `mind-palace/kind/kind.go`
--     Service           Kind, the errors, the Palace and its events
--     Service/Resolving Resolve and exists (service.go), NormalizeTimestamp, NormalizeDate(s)
--     Service/Saving    pathFor, check, invariants, save and publish (service.go)
--     Service/Dependencies  openDependencies and dependencyGate (dependencies.go)
--     Service/Fields    applyStatus, criteriaGate and the setters of fields.go
--     Service/Claiming  Claim (dependencies.go), with what others do around its reads and its write
--     Service/Schedule  the setters of schedule.go
--     Service/Checklist the operations of criteria.go
--     Service/Relating  the links to plans and stories (links.go)
--     Service/Attaching the specs, web links and repository (links.go)
--     Service/Progressing  the operations of progress.go
--     Service/Saved     the documents that save writes
--     Service/Gates     the workflow and the gates of SetStatus
--     Service/Claims    what a claim took
--     Service/Completing  how SetProgress completes a document
--     Service/Histories, Service/Serving, Service/ServingLinks, Service/ServingProgress
--                       the memory store under one operation
--     Service/Runs      any sequence of these operations over the memory store
--
--   The write-ahead log of sessions, `mind-palace/session/wal/wal.go`
--     Wal/Log           Append and Flush
--     Wal/Reading       reading back the lines that were written
--     Wal/Flushing      what the loop of Flush keeps
--     Wal/Pending       the documents that wait in the log
--
-- How they interact: a Flow of Device calls the token file of Auth through an interface; a
-- MultiStore calls its plugins through another. Both interfaces are records, which Auth and the
-- memory plugin fill. A service reads and writes its store through the record Palace, which the
-- memory plugin fills too; it reads the content with Markdown, the names with Model and the settings
-- with Config.
--
-- Base and its children hold what the parts share: Boolean tests, lists, association lists for Go's
-- maps, byte strings for Go's strings, and results for Go's errors. Tests evaluates the
-- definitions on concrete inputs and applies the theorems to them.
--
-- State and time. A method of a pointer is a function from the state to the state and its result.
-- Every exported method holds its mutex from beginning to end, so a history is a list of calls.
-- The requests of a Flow are shared by its two maps: they stand in a store under an address. Time
-- is a natural number of nanoseconds and an argument of the call; 0 is Go's zero time. The
-- saturation of time.Sub beyond 292 years is left out, and a negative duration reads as 0, as the
-- code treats both alike. The services format the time: there it is the text of the timestamp, and
-- the clock stands still during a call. The
-- documents that a store returns are copies, so a service changes a value of its own. Claim is given
-- what others do to the store while it waits for the lock, between its read under the lock and its
-- write, and before its last read; the other calls of the services follow each other.
--
-- Bounds. The loop of Start that draws a user code runs on fuel and returns nothing when it runs
-- out; its fuel is enough as soon as it exceeds the number of the round that ends the loop. The loops of
-- mint and freeName run the number of rounds that the source gives them. LeaseLock is given the list
-- of its turns until its context is done, each with the calls of others before it; its leases are
-- those of MemLeases.
--
-- From outside. SHA-256, the random generator, the encodings of its bytes, Unicode's letter case,
-- white space beyond ASCII in Normalize, encoding/json, the disk and what a store answers to the
-- log are parameters; so are strings.ToLower, strings.EqualFold and strings.ToUpper (the records
-- LetterCase and Folding), time.Parse (two fields of Palace) and the JSON Schema validator, which is
-- given the front matter and names its problems. The problems of a document are not sorted and
-- carry no text. PatchFrontMatter, templates, Ready, Create, Update and Delete of the services
-- are not modelled. HTTP handlers, JSON and YAML, templates of documents and the other packages of
-- the repository are not modelled: most are input and output, or calls of other libraries.
pub mod Base
pub mod Auth
pub mod Device
pub mod Model
pub mod Config
pub mod Markdown
pub mod Service
pub mod Wal
pub mod Store
pub mod Tests
