-- ===== src/Email.antt =====
-- The emails' texts and recipients (internal/reminderemail, internal/mailer).
pub mod Render
pub mod Run
pub mod Recipients
use carma.Base.{List}
use carma.Base.Text.{Text, fields, join, text}

-- mailer.Message
pub record Message : Type 0 where
  pub recipients : List Text
  pub subject : Text
  pub body : Text

unfoldable pub clean_body_value : Text → Text
clean_body_value value = join (text " ") (fields value)
