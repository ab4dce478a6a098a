-- ===== src/Malgomaj/Task.antt =====
-- CreateTask and GetStatus of api/malgomaj/api.go, NewTask.GetId and NewProgram. The compiler and the interpreter of Tengo and the
-- format of the header X-Expires are parameters, the decoder of the body gives a task or none. What a program that handles the
-- request itself writes to the response is not modelled.
pub mod Runs
use self_host.Prelude.{
  ℕ, ◌*◌, Bool, true, false, Option, none, some, List, [], ◌∷◌, ◌++◌, if◌then◌else◌, Result, ok,
  err,
}
use self_host.Text.{Text, codes, text_eq}
use self_host.Text.Map.{TextMap, insert}
use self_host.Errors.{
  Error, no_cause, http_error, other_error, error_text, error_malformed_request, error_undefined,
  new_internal_server_error, Reply, send_http_error,
}
use self_host.Malgomaj.Cache.{
  Program, ProgramCacheItem, ProgramCache, program_cache_get, program_cache_add,
  program_cache_get_load,
}

pub record NewTaskHttp : Type 0 where
  pub body : List ℕ
  pub headers : TextMap Text

pub record NewTask : Type 0 where
  -- Milliseconds
  pub deadline : ℕ
  pub domain : Text
  pub http : Option NewTaskHttp
  pub language : Text
  pub program_uuid : Text
  pub source_code : Text

unfoldable pub get_id : NewTask → Text
get_id t = t.domain ++ (47 ∷ t.program_uuid)

-- NewProgram at the arguments of CreateTask, with the Id of TengoProgram
unfoldable pub new_program : NewTask → Result Error Program
new_program t =
    if text_eq t.language (codes "tengo")
    then ok (record {
      id = t.domain ++ (47 ∷ t.program_uuid);
      deadline = t.deadline * 1_000_000;
      source_code = t.source_code;
    })
    else err (other_error (codes "language " ++ (t.language ++ codes " is not supported")))

pub data CompileError : Type 0 where
  -- The text of the code and the message
  library_error : Text → Text → CompileError
  compile_error : Error → CompileError

pub record Tengo : Type 0 where
  pub compile : Program → Option CompileError
  pub run : Program → Option Error
  pub run_with_http : NewTaskHttp → Program → Option Error
  pub format_expires : ℕ → Text

unfoldable pub compile_answer : CompileError → Error
compile_answer (library_error code message) =
    http_error no_cause (codes "library error (" ++ (code ++ (codes ") " ++ message))) 500
compile_answer (compile_error e) = new_internal_server_error e

-- The answer, and the program that was run.
pub record TaskAnswer : Type 0 where
  pub reply : Reply
  pub executed : Option Program

unfoldable pub failed : Error → TaskAnswer
failed e = record { reply = send_http_error [] e; executed = none }

answer : TextMap Text → Program → Option Error → TaskAnswer
answer headers p (some e) = record {
  reply = send_http_error headers (new_internal_server_error e);
  executed = some p;
}
answer headers p none = record {
  reply = record { headers = headers; code = 200; body = [] };
  executed = some p;
}

module _ (tengo : Tengo) where
  run_item : Option NewTaskHttp → TextMap Text → Program → TaskAnswer
  unfolding answer
  run_item none headers p = answer headers p (tengo.run p)
  run_item (some h) headers p =
      answer (insert (codes "Content-Type") (codes "text/plain; charset=utf-8") headers) p
        (tengo.run_with_http h p)

  -- From the header X-Expires on; an address without an item is the nil pointer.
  unfoldable pub run_cached : NewTask → Option ProgramCacheItem → TaskAnswer
  unfolding run_item
  run_cached t none = failed error_undefined
  run_cached t (some item) =
      run_item t.http (insert (codes "X-Expires") (tengo.format_expires item.expires) [])
        item.program

  run_added : NewTask → ProgramCache × ℕ → TaskAnswer × ProgramCache
  run_added t (c, i) = (run_cached t (c.items i), c)

  compiled : NewTask → ProgramCache → Program → Option CompileError → TaskAnswer × ProgramCache
  unfolding run_added
  compiled t c p (some e) = (failed (compile_answer e), c)
  compiled t c p none = run_added t (program_cache_add p c)

  created : NewTask → ProgramCache → Result Error Program → TaskAnswer × ProgramCache
  unfolding compiled
  created t c (err e) = (failed (new_internal_server_error e), c)
  created t c (ok p) = compiled t c p (tengo.compile p)

  found_or_created : NewTask → ProgramCache → ProgramCache → Option ℕ → TaskAnswer × ProgramCache
  unfolding created
  found_or_created t c later (some i) = (run_cached t (c.items i), c)
  found_or_created t c later none = created t later (new_program t)

  -- ProgramCacheGet and ProgramCacheAdd take the lock one after the other: `c` is the cache that the first one finds, `later`
  -- that which the second one finds, whatever other goroutines have done to it. The result holds the cache after the last
  -- of the two calls that is made.
  unfoldable pub create_task :
      Option NewTask → ProgramCache → ProgramCache → TaskAnswer × ProgramCache
  unfolding found_or_created
  create_task none c later = (failed error_malformed_request, c)
  create_task (some t) c later = found_or_created t c later (program_cache_get (get_id t) c)

-- The load that GetStatus answers with
unfoldable pub get_status : ProgramCache → ℕ
get_status c = program_cache_get_load c
