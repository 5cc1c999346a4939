-- ===== src/Lib.antt =====
-- Carma, a household vehicle maintenance log: what its reminders, its amounts of money and its weekly
-- email do.
--
-- The program is a server in Go over PostgreSQL. A household records services of its vehicles
-- (internal/model), and reminders say what comes due by date or by mileage (internal/reminder). The
-- server evaluates the reminders on each page, and a timer runs the weekly digest
-- (internal/reminderemail/digest.go): it reads the reminders, the mileage readings, the new safety
-- recalls and the users' addresses from the store (internal/repository), claims the week there, and
-- hands one message to the mail relay (internal/mailer). Another command sends an email for each overdue
-- reminder (internal/reminderemail/runner.go). A weekly check (internal/recallcheck) asks the NHTSA
-- (internal/nhtsa) for the recall campaigns of each vehicle and saves them in the store, where the
-- household dismisses them and the digest finds the new ones. Files that are attached to records and
-- vehicles are kept on disk (internal/assets), where a timer removes those that nothing refers to
-- (internal/assetcleanup). The history is exported as a CSV file or as a workbook (internal/export).
-- Settings are read from the environment at the start (internal/config). Sign-ins (internal/auth) are admitted by an
-- allowlist, which also filters the recipients of the emails.
--
-- Files:
--   Base: lists, options, Go's strings as lists of bytes (Base/Text), decimal numbers as strconv reads
--     and prints them (Base/Decimal, Base/Digits), int64 with its wrap-around (Base/Int), float64 as an
--     interface (Base/Float), errors (Base/Result).
--   Calendar: time.Time at the midnights of one location, AddDate, the number of a day (Calendar/Days),
--     order and steps (Calendar/Steps), a *time.Location as an interface (Calendar/Zone).
--   Model: the types of internal/model; Model/Money and Model/Spend are spend.go, Model/Warranty is
--     warranty.go. The files below them hold their proofs.
--   Reminder: internal/reminder. Reminder/Evaluate is Evaluate, EvaluateAll and ProjectionVehicles,
--     Reminder/Estimate is EstimateMilesPerDay and EstimateHint, Reminder/Snooze is snooze.go, and
--     Reminder/Format holds groupThousands and shortDate.
--   Ui: Dollars of internal/ui/render.go.
--   Nhtsa: internal/nhtsa/client.go: the VIN tests, DecodeVIN (Nhtsa/Decode) and Recalls
--     (Nhtsa/Campaigns), from the decoded answer of the server on.
--   Recalls: Recalls/Store is internal/repository/recalls.go, and Recalls/Check is the run of
--     internal/recallcheck/runner.go with the query that says which vehicles are due.
--   Email: the messages of internal/reminderemail (Email/Render) and NormalizeRecipients
--     (Email/Recipients); Email/Run is Runner.Run, each return and each failed call a branch of it.
--   Digest: Digest/Store is internal/repository/reminder_digest.go, each statement of SQL as a function
--     of the tables, and Digest/Run is DigestRunner.Run. Each return of a Go function that does I/O is a
--     branch, and what the clock, the random source, the database and the relay answer is a value of the
--     type Answers.
--   Auth: the allowlist of internal/auth/auth.go (Auth/Allowlist), the table of users (Auth/Users) and
--     sign-ins and sessions (Auth/Sessions), with the statements of
--     internal/repository/postgres_auth.go.
--   Config: internal/config/config.go: the environment and the secret files (Config), the address of the
--     metrics (Config/Metrics), the settings of the emails (Config/Mail) and Load (Config/Load). The
--     environment, the files and the parsers of Go's library are the fields of Host.
--   Garage: the store's vehicles and their mileage: AddOdometerReading and ListMileagePoints of
--     internal/repository/postgres_odometer.go, and GetVehicle, UpdateVehicle (Garage/Vehicles) and
--     ArchiveVehicle of postgres_vehicles.go. Garage/Records is the writes of postgres_records.go and
--     postgres_attachments.go, with what they do to the snoozes, Garage/Records/Search is ListRecords, and
--     Garage/Reminders is postgres_reminders.go.
--   Export: internal/export. Export/Csv is csv.go over any writer of rows, Export/History is history.go,
--     Export/Names is the names of a workbook's sheets, and Export/Workbook is the rest of xlsx.go as the
--     list of its calls of the spreadsheet library, which run up to the first that fails.
--   Assets: Assets/Store is LocalStore of internal/assets/store.go (Save, Open and Delete), Assets/Prune
--     is Prune of internal/assets/pruner.go, and Assets/Cleanup is the runner of
--     internal/assetcleanup/runner.go. The directory of objects is a list of files and of folders with
--     their items, since no folder of a folder is ever entered; what the file system and the context
--     answer is a value for each path, and filepath.Rel and filepath.Clean do not fail below the root.
--   Server: the handlers of internal/server over the store: Server/Records is records.go and
--     Server/Reminders is reminders.go. What a request brings, and what the parsers of the library, the
--     clock, the random source and the database answer to it, are values; a handler leaves the store, the
--     files that it deletes and the answer, of which the page's content is left out.
--   Examples: concrete data, tests, and the theorems at inputs that meet their hypotheses.
--
-- Choices:
--   - A text is its bytes; where the code counts runes or UTF-16 units (truncate of the digest, the names of
--     sheets), the text is the list of its runes. strings.TrimSpace, ToLower, ToUpper, EqualFold and
--     unicode.IsSpace are written for ASCII.
--   - A date is a year from 0 on, a month and a day. Records and reminders keep dates without a time.
--   - An int64 is an integer; sums and differences that the code leaves unchecked wrap at 2^63.
--   - float64 is any type with the operations that the code uses; a theorem that needs a fact of
--     rounding has it as a hypothesis.
--   - Printing a number of n recurses on n + 1, which is more than its digits.
--   - An instant is a number of nanoseconds. A UUID is a number, and 0 is uuid.Nil. That a random UUID
--     is new is a hypothesis.
--   - A write of the household's data (Garage) is committed, is committed although the answer to the commit
--     is lost (then it returns an error), or is rolled back: the type Write. Any other statement or
--     transaction of SQL that returns an error has changed nothing; that the claim of a digest
--     may stand although the run got an error is a step of its own (claimed_unknown in Digest/Run/Once).
--     ORDER BY compares texts by their bytes, and leaves rows that it does not tell apart in the order of
--     the table. ILIKE is written for ASCII.
--   - An error of the mail relay is a refusal, or it loses the confirmation of a message that the relay
--     took: the type Reply, for the digest. The emails of single reminders record a failure for either.
--   - The settings of the emails are checked in the order of the source's map literal, where Go takes any
--     order: that tells only which of the errors is returned.
--   - A sheet's name is looked for with fuel for two candidates more than names are taken: one of them is
--     free, since the candidates behind the first differ in their numbers.
--   - time.LoadLocation's zones, net/mail.ParseAddress, URL escaping, SHA-256 and the mail relay are
--     parameters.
--
-- Not modelled: the other handlers and the templates (internal/server, internal/ui), logging and metrics, the
-- connection pool, context deadlines, and the HTTP of the requests to the NHTSA.
pub mod Assets
pub mod Auth
pub mod Base
pub mod Calendar
pub mod Config
pub mod Export
pub mod Model
pub mod Reminder
pub mod Ui
pub mod Nhtsa
pub mod Digest
pub mod Garage
pub mod Recalls
pub mod Server
pub mod Email
mod Examples
