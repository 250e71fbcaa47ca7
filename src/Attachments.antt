-- ===== src/Attachments.antt =====
-- agent_harness/attachments.py: the text that lists the attachments of a message.
use temporal_agent_harness_e.Prelude.{
  ℕ, suc, String, ◌≡◌, refl, Option, List, [], ◌∷◌, ◌++◌, if◌then◌else◌,
}
use temporal_agent_harness_e.Prelude.Text.{is_blank, decimal, strip, join_lines}
use Prim.Native.String.{◌++◌ as join}

pub record AttachmentRef : Type 0 where
  pub attachment_id : String
  pub name : String
  pub mime_type : String
  pub size_bytes : ℕ
  pub content_kind : String
  pub source : String
  pub text_preview : String
  pub text_chars : Option ℕ
  pub expires_at : String
  pub metadata : List (String × String)

abbrev pub concat : List String → String
concat [] = ""
concat (x ∷ xs) = join x (concat xs)

attachment_lines : ℕ → AttachmentRef → List String
attachment_lines index a =
    let preview = strip a.text_preview in
    concat (
        decimal index
        ∷ ". "
        ∷ a.name
        ∷ " (attachment_id="
        ∷ a.attachment_id
        ∷ ", mime_type="
        ∷ a.mime_type
        ∷ ", kind="
        ∷ a.content_kind
        ∷ ", size_bytes="
        ∷ decimal a.size_bytes
        ∷ ")"
        ∷ [])
      ∷ (if is_blank a.expires_at then [] else join "   expires_at: " a.expires_at ∷ [])
    ++ (if is_blank preview then [] else join "   preview: " preview ∷ [])

manifest_lines : ℕ → List AttachmentRef → List String
unfolding attachment_lines
manifest_lines index [] = "</attachments>" ∷ []
manifest_lines index (a ∷ rest) = attachment_lines index a ++ manifest_lines (suc index) rest

unfoldable pub attachment_manifest_text : List AttachmentRef → String
unfolding manifest_lines
attachment_manifest_text [] = ""
attachment_manifest_text (a ∷ rest) = join_lines "\n" (
    "<attachments>"
    ∷ "The user attached the following files to this turn. Use the read_attachment tool with an attachment_id when you need attachment contents that are not already visible in the user message."
    ∷ "Attachments are retained for a limited time; if an attachment is expired or unavailable, explain that clearly to the user."
    ∷ ""
    ∷ manifest_lines 1 (a ∷ rest))

-- `attachments or []` shows nothing for no attachments
attachment_manifest_empty : attachment_manifest_text [] ≡ ""
unfolding attachment_manifest_text
attachment_manifest_empty = refl
