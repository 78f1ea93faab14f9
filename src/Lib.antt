-- ===== src/Lib.antt =====
-- CloudBox, a file store in Go (internal/), as a model in which its parts are functions.
--
-- The parts, and where each is modelled:
--   * Job: the queue of background jobs (internal/job/model.go, repository.go, service.go, runner.go).
--     Job.Repository has the statements on the table background_jobs, Job.Service the calls of other
--     parts, Job.Runner the rounds of a worker. Job.Trace is about histories of statements by any
--     number of requests and workers, Job.Claim, Job.Round, Job.Lookup and Job.Delay about one call.
--   * Upload: uploads in chunks (internal/upload/model.go, repository.go, service.go). Upload.Plan has
--     the sizes of chunks, Upload.Service all operations but Complete, which is in Upload.Complete with
--     mergeChunks. Upload.Merge, Upload.Outcome, Upload.Finish and Upload.Completion follow Complete
--     from its parts to the whole, Upload.Receive, Upload.Record and Upload.Accept follow UploadChunk; Upload.Moves and
--     Upload.Trace are about histories of operations.
--   * Share: links to one file (internal/share/model.go, access_control.go, repository.go, service.go).
--     Share.Control has the limits kept in memory, Share.Service the checks of a visitor, Share.Public
--     the calls of visitors and owners, Share.Save the copy into the files of a user. Share.Access,
--     Share.Checks, Share.Visit and Share.Download follow a download, Share.Refund a save, and
--     Share.Creation is about new shares.
--   * File: the files, folders and contents of users (internal/file/model.go, repository.go, service.go,
--     scan_job.go, verify_job.go, thumbnail_job.go, and thumbnail.go but for the images). File.Tables has
--     the tables with their constraints, File.Repository the functions on them by table: Files, Objects
--     (contents), Removal (PermanentlyDeleteDeleted), Scans (with previews) and Folders. File.Service has
--     the quota and the jobs that the service queues, and by child: Upload, Access (lists and
--     downloads), Scan (the work on a content, thumbnails included), Jobs (the handlers), Trash and
--     Folders. File.History is about histories of calls of the repository and what keeps a property of
--     the tables over them; File.References is about reference counts, File.Verdicts about scans
--     (File.Verdicts.Scanned about what ScanActiveFile leaves),
--     File.Tree about the forest of folders (File.Tree.Listing about the sizes that a list of them
--     shows), File.Trash, File.Quota and File.Clean about single calls,
--     File.Thumbnails about the dimensions of previews. File.References.View is a specification of
--     the tables that knows only which files and contents there are.
--
-- How they interact: a share and an upload call the file service through interfaces (the records
-- Setup of Share.Service and FileService of Upload.Model), over a state of its own that is a parameter;
-- the file service has its storage, cache, job queue and scanner behind interfaces too (the records
-- Storage, UsageCache and Setup of File.Service);
-- a job's handler is an action on the store of jobs.
--
-- State and calls: Exec has the monad in which code runs, a store with the outcomes of the calls to
-- come. Each call of the database or of a disk takes an outcome and may fail; where a theorem says
-- that all calls work, no outcome is a failure. A transaction is a sequence of
-- calls after which an error, of the commit too, puts the store back. Exec.Keeps has the rules for what
-- holds on every branch whatever fails, Exec.Ensures those for what then follows a result or an error,
-- with what a transaction restores, Exec.Works those for what an action makes of a store where all calls work. Sql has
-- the statements on one table, a list of rows, with the tests of their WHERE clauses; Disk the calls of
-- package os; Text strings.TrimSpace; Fail all sentinel errors, wrapping, and messages. A deferred
-- function is the part of the code that follows the attempt of the rest.
--
-- Numbers are natural numbers: sizes, counts and row numbers have been checked to be no less than 0
-- before they are stored, and a number that a request brings is an integer (ℤ) until that check.
-- A clock is a number, in nanoseconds where the code has durations. The sum of sizes of
-- CreateManyWithObjectsInFolder wraps as an int64. Two functions run on fuel: check_ancestors, the walk
-- of MoveFolder, for which any number above the depth of the new parent is enough
-- (File.Tree), and subtree_size, the recursive query of ListFolders, which takes the number of
-- folders: no tree is deeper than that (File.Tree.Depth), so that it is enough on a forest
-- (File.Tree.Listing). Every other loop is a recursion on the list that it walks. The rounds of a worker are a list of any length.
--
-- Parameters, for code that is not in the repository: SHA-256 and bcrypt as functions, the
-- identifiers and tokens that are drawn, the file that os.CreateTemp names, storage.Open as what it
-- reads at a path, the clock; LIKE, LOWER and the order of texts, in which the databases differ; the
-- scanner, and what the image library and ffmpeg make of a content. A file service and a download policy
-- are assumed, where a theorem says so, to work where all calls work (Runs, PolicyRuns, SaverRuns).
--
-- Not modelled: HTTP handlers and middleware, accounts, the inside of images, the storage on disk and on
-- MinIO, configuration, telemetry, logging; shares of several files and the limits kept in Redis;
-- goroutines, tickers and the cancellation of a context in the middle of a call. Statements of one
-- request that come between those of another are covered for jobs (Job.Trace) and for the downloads of
-- shares (Share.Repository.Limit), not for uploads and files, whose calls follow one another. The trigger on
-- deleted files is left out with the share collections that it removes. A job's user has to exist, as
-- its foreign key says; those of upload_tasks and upload_chunks are not checked, so that the model
-- makes rows that the database refuses.
mod Base
pub mod Fail
pub mod Exec
pub mod Sql
pub mod Text
pub mod Disk
pub mod Job
pub mod File
pub mod Upload
pub mod Share
