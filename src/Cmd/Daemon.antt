-- ===== src/Cmd/Daemon.antt =====
-- cmd/crabmqd/main.go: the daemon. What the parts that it starts return, and the case that its
-- `select` takes, are arguments of the model.
use carbmq_core.Base.{ℕ, String, List, [], ◌∷◌, Option, none, some, if◌then◌else◌, ◌==◌}
use carbmq_core.Errors.{Error}

pub data Mode : Type 0 where
  broker api all : Mode

-- the `command` of `main`, and its `switch`; `none` is its default case
unfoldable mode : (args : List String) → Option Mode
mode [] = some all
mode (command ∷ args) =
    if command == "broker"
    then some broker
    else if command == "api"
    then some api
    else if command == "all"
    then some all
    else none

-- What a function returns, its error; `none` if it does not return.
abbrev pub Return : Type 0
Return = Option (Option Error)

-- The case that a `select` takes, any one that is ready: the context is done, or one of the goroutines
-- has sent what it returned.
pub data Case : Type 0 where
  done : Case
  sent : Option Error → Case

-- the bodies of the `select`; `none` if no case is ever ready
unfoldable pub select : Option Case → Return
select none = none
select (some done) = some none
select (some (sent r)) = some r

-- `Server.Run` of the broker: the errors that are logged, which is that of the metrics server, and what
-- it returns, which is what `Listen` does
unfoldable run_server : (metrics : Option Error) (listens : Return) → Option Error × Return
run_server metrics listens = (metrics, listens)

-- `runBroker`
unfoldable pub run_broker : (metrics : Option Error) (listens : Return) → Return
unfolding run_server
run_broker metrics listens = (run_server metrics listens).1

-- `runAPI`, behind the start of the bridge and of the server
unfoldable pub run_api : Option Case → Return
unfolding select
run_api taken = select taken

-- `runAll`, behind the start of the broker and of the API
unfoldable pub run_all : Option Case → Return
unfolding select
run_all taken = select taken

ended : Option Error → ℕ
ended none = 0
ended (some e) = 1

-- the status, once the function of the mode has returned
after_run : Return → Option ℕ
unfolding ended
after_run none = none
after_run (some r) = some (ended r)

run_mode : (Mode → Return) → Option Mode → Option ℕ
unfolding after_run
run_mode run none = some 2
run_mode run (some m) = after_run (run m)

-- the function of a mode
unfoldable pub of_mode :
    (metrics : Option Error) → (listens : Return) → (taken : Option Case) → Mode → Return
unfolding run_broker run_api run_all
of_mode metrics listens taken broker = run_broker metrics listens
of_mode metrics listens taken api = run_api taken
of_mode metrics listens taken all = run_all taken

-- the status of `main`, if it ends, on what `db.Open` answers and what the functions of the modes return
unfoldable pub main_status : (args : List String) → Option Error → (Mode → Return) → Option ℕ
unfolding run_mode mode
main_status args (some e) run = some 1
main_status args none run = run_mode run (mode args)

pub data Level : Type 0 where
  debug info warn error : Level

-- `newLogger`
unfoldable pub log_level : String → Level
log_level level =
    if level == "debug"
    then debug
    else if level == "warn"
    then warn
    else if level == "error"
    then error
    else info
