-- ===== src/Session/Tests.antt =====
-- crates/ai-daemon/src/session.rs: the theorems at concrete workers and attachments.
use ai_daemon.Prelude.{
  ℕ, ◌%◌, ◌≤◌, ◌<◌, String, ◌≡◌, refl, ◌↔◌, true, false, Option, none, some, List, [], ◌∷◌, ◌++◌,
  map, arith, length, u32_mod,
}
use ai_daemon.Wire.{Bytes, Frame, cbor, blob}
use ai_daemon.Wire.Payload.{joined}
use ai_daemon.Session.{
  ToolResultItem, Worker, unknown_call, turn, hello, unsupported_protocol, remove_first,
  answer_message, take_answers, is_empty, resume, answer_tools, greet, calls_are_ones_we_offered,
}
use ai_daemon.Session.Answers.{calls, answers, turn_resumes, resumed-history}
use ai_daemon.Session.Attachments.{
  Budget, image, AttachMeta, RawAttachment, Holding, exceeded, over_budget, wrong_length,
  bytes_per_pixel, check_pixels, check_image, check_attachment_budget, drain, raw_of, keep, accept,
  attach,
}
use ai_daemon.Session.Attachments.Limits.{Stored, attach-Stored}

-- A worker that waits for two tools.
abbrev waiting : Worker ℕ String
waiting = record {
  history = [];
  tools = none;
  params = 0;
  grammar = none;
  pending_tool_calls = "a" ∷ "b" ∷ [];
  proto = 2;
}

abbrev both : List ToolResultItem
both = record { id = "b"; content = "2" } ∷ record { id = "a"; content = "1" } ∷ []

turn_resumes_example : ((answer_tools both waiting).1 ≡ turn true ∷ []) ↔ (
    (is_empty waiting.pending_tool_calls ≡ false)
    × ((id : String) → calls id waiting.pending_tool_calls ≡ answers id both))
turn_resumes_example = turn_resumes both waiting

resumed-history_example :
    ((answer_tools both waiting).0.history ≡ waiting.history ++ map answer_message both)
    × (is_empty (answer_tools both waiting).0.pending_tool_calls ≡ true)
unfolding answer_tools resume take_answers remove_first
resumed-history_example = resumed-history both waiting refl

half_answered : (answer_tools (record { id = "b"; content = "2" } ∷ []) waiting).1 ≡ []
unfolding answer_tools resume take_answers remove_first
half_answered = refl

not_asked : (answer_tools (record { id = "c"; content = "2" } ∷ []) waiting).1 ≡ unknown_call ∷ []
unfolding answer_tools resume take_answers remove_first
not_asked = refl

newest_protocol : (greet 0 waiting).1 ≡ hello 2 ∷ []
unfolding greet
newest_protocol = refl

future_protocol : (greet 3 waiting).1 ≡ unsupported_protocol 3 ∷ []
unfolding greet
future_protocol = refl

not_offered :
    calls_are_ones_we_offered
      (λ _. true)
      (some ("read" ∷ []))
      (record { name = "write"; arguments = "{}" } ∷ [])
    ≡ false
unfolding calls_are_ones_we_offered
not_offered = refl

abbrev budget : Budget
budget = record {
  max_bytes = 100;
  max_pixels = 16;
  max_samples = 10;
  max_per_session = 4;
  allow_encoded = false;
}

abbrev two_by_one : AttachMeta
two_by_one = record { w = some 2; h = some 1; fmt = some "rgb8"; rate = none; encoded = none }

abbrev no_decoder : String → Bytes → Option RawAttachment
no_decoder hint payload = none

abbrev nothing_held : Holding
nothing_held = record { attachments = []; attachment_bytes = 0 }

-- Six bytes in two frames, and a request behind them.
abbrev frames : List (Frame ℕ)
frames = blob (1 ∷ 2 ∷ []) ∷ blob (3 ∷ 4 ∷ 5 ∷ 6 ∷ []) ∷ cbor 7 ∷ []

attach-Stored_example :
    (6 ≤ 100)
    × (0 % u32_mod < 4)
    × Stored budget "p" image
        (attach no_decoder budget "p" image two_by_one 6 frames nothing_held).0
    × ((blobs : List Bytes) × (frames
          ≡ map blob blobs
            ++ (attach no_decoder budget "p" image two_by_one 6 frames nothing_held).1)
        × (length (joined blobs) ≡ 6))
unfolding attach accept keep raw_of drain check_attachment_budget check_image check_pixels
    bytes_per_pixel
attach-Stored_example =
    attach-Stored no_decoder budget "p" image two_by_one 6 frames nothing_held (omega arith) refl

too_few_bytes :
    (attach no_decoder budget "p" image two_by_one 2 frames nothing_held).2
    ≡ over_budget wrong_length
unfolding attach accept keep raw_of drain check_attachment_budget check_image check_pixels
    bytes_per_pixel
too_few_bytes = refl

past_the_length : (attach no_decoder budget "p" image two_by_one 5 frames nothing_held).2 ≡ exceeded
unfolding attach accept keep raw_of drain check_attachment_budget check_image check_pixels
    bytes_per_pixel
past_the_length = refl
