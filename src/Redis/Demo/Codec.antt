-- ===== src/Redis/Demo/Codec.antt =====
-- A text form of tasks that can be read back.
use Prim.Native.Char.{Char, code}
use cio_run_auto_orchestrato.Prelude.{
  String, ℕ, zero, suc, Option, none, some, false, ◌≡◌, ◌==◌, refl, if◌then◌else◌, nat_eq, code_at,
  ==_of_code, arith,
}
use cio_run_auto_orchestrato.Models.{
  Task, TaskMode, new, resume, secondary, unknown, TaskStatus, pending, running, success, failed,
  interrupted, Payload,
}

-- A text is written with a mark before each character and another at its end; a number in unary.
abbrev mark : Char
mark = "1"

abbrev stop : Char
stop = "0"

write_text : String → String → String
write_text String.[] k = String.◌∷◌ stop k
write_text (String.◌∷◌ c s) k = String.◌∷◌ mark (String.◌∷◌ c (write_text s k))

write_number : ℕ → String → String
write_number zero k = String.◌∷◌ stop k
write_number (suc n) k = String.◌∷◌ mark (write_number n k)

abbrev push_char : Char → Option (String × String) → Option (String × String)
push_char c none = none
push_char c (some (s, k)) = some (String.◌∷◌ c s, k)

read_text : String → Option (String × String)
read_text String.[] = none
read_text (String.◌∷◌ c String.[]) = if nat_eq (code c) 48 then some ("", "") else none
read_text (String.◌∷◌ c (String.◌∷◌ d s)) =
    let more = push_char d (read_text s) in
    if nat_eq (code c) 48 then some ("", String.◌∷◌ d s) else more

read-write_text : (s k : String) → read_text (write_text s k) ≡ some (s, k)
unfolding read_text write_text
read-write_text String.[] String.[] = refl
read-write_text String.[] (String.◌∷◌ c k) = refl
read-write_text (String.◌∷◌ c s) k = rw (read-write_text s k)

read_number : String → Option (ℕ × String)
read_number String.[] = none
read_number (String.◌∷◌ c s) =
    let more = read_number s in
    if nat_eq (code c) 48
    then some (0, s)
    else elim more [ none ↦ none | some (n, k) ↦ some (suc n, k) ]

read-write_number : (n : ℕ) (k : String) → read_number (write_number n k) ≡ some (n, k)
unfolding read_number write_number
read-write_number zero k = refl
read-write_number (suc n) k = rw (read-write_number n k)

abbrev mode_number : TaskMode → ℕ
mode_number new = 0
mode_number resume = 1
mode_number secondary = 2
mode_number unknown = 3

abbrev mode_of : ℕ → TaskMode
mode_of zero = new
mode_of (suc zero) = resume
mode_of (suc (suc zero)) = secondary
mode_of _ = unknown

abbrev status_number : TaskStatus → ℕ
status_number pending = 0
status_number running = 1
status_number success = 2
status_number failed = 3
status_number interrupted = 4

abbrev status_of : ℕ → TaskStatus
status_of zero = pending
status_of (suc zero) = running
status_of (suc (suc zero)) = success
status_of (suc (suc (suc zero))) = failed
status_of _ = interrupted

mode_of-mode_number : (m : TaskMode) → mode_of (mode_number m) ≡ m
mode_of-mode_number new = refl
mode_of-mode_number resume = refl
mode_of-mode_number secondary = refl
mode_of-mode_number unknown = refl

status_of-status_number : (m : TaskStatus) → status_of (status_number m) ≡ m
status_of-status_number pending = refl
status_of-status_number running = refl
status_of-status_number success = refl
status_of-status_number failed = refl
status_of-status_number interrupted = refl

with_text : {A : Type 0} → (String → String → Option A) → String → Option A
with_text f s = elim (read_text s) [ none ↦ none | some (a, k) ↦ f a k ]

with_number : (ℕ → String → Option Task) → String → Option Task
with_number f s = elim (read_number s) [ none ↦ none | some (a, k) ↦ f a k ]

with_text-write_text :
    {A : Type 0} (f : String → String → Option A) (a k : String)
    → with_text f (write_text a k) ≡ f a k
unfolding with_text
with_text-write_text f a k = rw (read-write_text a k, with_text)

with_number-write_number :
    (f : ℕ → String → Option Task) (a : ℕ) (k : String) → with_number f (write_number a k) ≡ f a k
unfolding with_number
with_number-write_number f a k = rw (read-write_number a k, with_number)

encode : Task → String
encode t = write_text t.task_id (
    write_text t.project_name (
      write_text t.requirement (
        write_text t.work_dir (
          write_text t.config_json (
            write_number (mode_number t.mode) (
              write_number (status_number t.status) (
                write_number t.created_at (
                  write_number t.updated_at
                    (write_number t.retry_count (write_text t.status_detail ""))))))))))

decode : String → Option Task
decode = with_text λ task_id. with_text λ project_name. with_text λ requirement.
    with_text λ work_dir. with_text λ config_json. with_number λ mode. with_number λ status.
      with_number λ created_at. with_number λ updated_at. with_number λ retry_count.
        with_text λ status_detail _. some (record {
          task_id = task_id;
          project_name = project_name;
          requirement = requirement;
          work_dir = work_dir;
          config_json = config_json;
          mode = mode_of mode;
          status = status_of status;
          created_at = created_at;
          updated_at = updated_at;
          retry_count = retry_count;
          status_detail = status_detail;
        })

decode-encode : (t : Task) → decode (encode t) ≡ some t
unfolding decode encode
decode-encode t =
    simp
      (with_text-write_text, with_number-write_number, mode_of-mode_number, status_of-status_number)

unfoldable pub dump : Task → String
unfolding encode write_text write_number
dump = encode

unfoldable pub validate : String → Option Task
unfolding decode with_text with_number read_text read_number
validate = decode

pub validate-dump : (t : Task) → validate (dump t) ≡ some t
unfolding dump validate
validate-dump = decode-encode

encode_event : Payload → String
encode_event p =
    write_text p.event_type
      (write_text p.message (write_text p.metadata (write_text p.timestamp "")))

decode_event : String → Option Payload
decode_event = with_text λ event_type. with_text λ message. with_text λ metadata.
    with_text λ timestamp _. some (record {
      event_type = event_type;
      message = message;
      metadata = metadata;
      timestamp = timestamp;
    })

decode_event-encode_event : (p : Payload) → decode_event (encode_event p) ≡ some p
unfolding decode_event encode_event
decode_event-encode_event p = simp with_text-write_text

unfoldable pub dump_event : Payload → String
unfolding encode_event write_text
dump_event = encode_event

unfoldable pub load_event : String → Option Payload
unfolding decode_event with_text read_text
load_event = decode_event

pub load_event-dump_event : (p : Payload) → load_event (dump_event p) ≡ some p
unfolding dump_event load_event
load_event-dump_event = decode_event-encode_event

write_text_begins : (s k : String) → (write_text s k == "__DONE__") ≡ false
unfolding write_text code_at
write_text_begins String.[] k = ==_of_code _ _ 0 (omega arith)
write_text_begins (String.◌∷◌ c s) k = ==_of_code _ _ 0 (omega arith)

pub dump_event_begins : (p : Payload) → (dump_event p == "__DONE__") ≡ false
unfolding dump_event
dump_event_begins p = write_text_begins p.event_type _
