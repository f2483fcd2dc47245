-- ===== src/Facade/Messages.antt =====
-- Messages and sessions of a request: apps/server/src/csapi/protocol.ts, `extractText` to
-- `renderTranscript`, and `resolveSessionKey`. A JSON value is read through the tests that the code
-- makes of it.
use cursor_gateway.Base.{
  Bool, true, false, not, Option, none, some, List, [], ◌∷◌, ◌++◌, map, coalesce, if◌then◌else◌,
}
use cursor_gateway.Text.{Text, codes, is_empty, trim, join, concat, nonempty_texts}
use cursor_gateway.Table.{rows_where}
use cursor_gateway.Facade.Keys.{Header}

-- The `type` of a content part.
pub data PartType : Type 0 where
  text_part input_text output_text image image_url input_image other_type : PartType

-- A content part: a string, an object with its `type` and its `text` where that is a string, or any
-- other value.
pub data Part : Type 0 where
  plain : Text → Part
  tagged : PartType → Option Text → Part
  other_part : Part

pub data Content : Type 0 where
  whole : Text → Content
  parts : List Part → Content
  other_content : Content

abbrev is_text_type : PartType → Bool
is_text_type PartType.text_part = true
is_text_type PartType.input_text = true
is_text_type PartType.output_text = true
is_text_type PartType.image = false
is_text_type PartType.image_url = false
is_text_type PartType.input_image = false
is_text_type PartType.other_type = false

abbrev is_image_type : PartType → Bool
is_image_type PartType.text_part = false
is_image_type PartType.input_text = false
is_image_type PartType.output_text = false
is_image_type PartType.image = true
is_image_type PartType.image_url = true
is_image_type PartType.input_image = true
is_image_type PartType.other_type = false

-- What a part pushes.
unfoldable pub part_text : Part → List Text
part_text (Part.plain t) = t ∷ []
part_text (Part.tagged type none) = if is_image_type type then codes "[image omitted]" ∷ [] else []
part_text (Part.tagged type (some t)) =
    if is_text_type type
    then t ∷ []
    else if is_image_type type
    then codes "[image omitted]" ∷ []
    else t ∷ []
part_text Part.other_part = []

unfoldable pub part_texts : List Part → List Text
unfolding part_text
part_texts [] = []
part_texts (p ∷ ps) = part_text p ++ part_texts ps

-- `extractText`, and `extractSystem`, which is the empty text at a missing or empty value too.
unfoldable pub extract_text : Content → Text
unfolding part_texts concat
extract_text (Content.whole t) = t
extract_text (Content.parts ps) = concat (part_texts ps)
extract_text Content.other_content = []

-- `ChatRole`; any other string that a client sends is `unlisted`.
pub data ChatRole : Type 0 where
  system user assistant tool : ChatRole
  unlisted : Text → ChatRole

pub record NormalizedMessage : Type 0 where
  pub role : ChatRole
  pub text : Text

-- An element of `messages`: an object, or a value that is none.
pub data RawMessage : Type 0 where
  object : (role : Option ChatRole) → (content : Content) → RawMessage
  no_object : RawMessage

-- `normalizeMessages`; what is no array has no elements.
unfoldable pub normalize_messages : List RawMessage → List NormalizedMessage
unfolding extract_text
normalize_messages [] = []
normalize_messages (RawMessage.object role content ∷ rest) =
    record { role = coalesce role ChatRole.user; text = extract_text content }
    ∷ normalize_messages rest
normalize_messages (RawMessage.no_object ∷ rest) = normalize_messages rest

abbrev pub is_system : ChatRole → Bool
is_system ChatRole.system = true
is_system ChatRole.user = false
is_system ChatRole.assistant = false
is_system ChatRole.tool = false
is_system (ChatRole.unlisted r) = false

abbrev pub is_user : ChatRole → Bool
is_user ChatRole.system = false
is_user ChatRole.user = true
is_user ChatRole.assistant = false
is_user ChatRole.tool = false
is_user (ChatRole.unlisted r) = false

-- `lastUserText`; the loop from the end, as the answer for the rest or else the first message.
unfoldable pub last_user_text : List NormalizedMessage → Option Text
last_user_text [] = none
last_user_text (m ∷ rest) = later m (last_user_text rest)
  where
    later : NormalizedMessage → Option Text → Option Text
    later m (some t) = some t
    later m none = if is_user m.role then some m.text else none

unfoldable pub role_label : ChatRole → Text
role_label ChatRole.assistant = codes "Assistant"
role_label ChatRole.system = codes "System"
role_label ChatRole.tool = codes "Tool"
role_label ChatRole.user = codes "User"
role_label (ChatRole.unlisted r) = codes "User"

-- One line of a transcript.
unfoldable pub transcript_line : NormalizedMessage → Text
unfolding role_label trim
transcript_line m = trim (role_label m.role ++ codes ": " ++ m.text)

-- The lines of the messages other than those of the system.
unfoldable pub transcript_parts : List NormalizedMessage → List Text
unfolding transcript_line nonempty_texts rows_where
transcript_parts messages =
    nonempty_texts
      (map transcript_line (rows_where (λ m. not (is_system (NormalizedMessage.role m))) messages))

-- `renderTranscript`
unfoldable pub render_transcript : List NormalizedMessage → Text
unfolding transcript_parts join
render_transcript messages = join (codes "\n\n") (transcript_parts messages)

-- A string that is not blank, trimmed.
abbrev named : Option Text → Option Text
unfolding trim
named none = none
named (some t) = if is_empty (trim t) then none else some (trim t)

abbrev first_of : Option Text → Option Text → Option Text
first_of none b = b
first_of (some a) b = some a

abbrev session_header : Header → Option Text
session_header Header.missing = none
session_header (Header.single t) = some t
session_header (Header.several []) = none
session_header (Header.several (v ∷ vs)) = v

-- `resolveSessionKey`, from the header and the three fields of the body, each `none` where it is no
-- string.
unfoldable pub resolve_session_key :
    (x_session_id : Header)
    → (session_id conversation_id metadata_user_id : Option Text) → Option Text
unfolding trim
resolve_session_key x_session_id session_id conversation_id metadata_user_id =
    first_of (named (session_header x_session_id))
      (first_of (named session_id) (first_of (named conversation_id) (named metadata_user_id)))
