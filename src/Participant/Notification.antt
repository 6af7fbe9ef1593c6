-- ===== src/Participant/Notification.antt =====
-- internal/participant/adapters/notification/notification.go and internal/common/email: the
-- confirmation of a registration as an e-mail. html/template and the Resend client are parameters.
-- The service logs what sending answers and goes on, so `Notice` in the outbox stands for the call.
use go_finish_line_api.Prelude.{
  ℕ, zero, suc, ◌-◌, Option, none, some, List, [], ◌∷◌, ◌++◌, ℤ, sub_ℕ, if◌then◌else◌,
}
use go_finish_line_api.Text.{Text, codes, is_empty}
use go_finish_line_api.Text.Numeral.{print_nat, print_int}
use go_finish_line_api.Civil.{Time}
use go_finish_line_api.Civil.Layout.{base_year}
use go_finish_line_api.Apperr.{Result, ok, err, wrap, signal, failure}
use go_finish_line_api.Config.{EmailConfig}
use go_finish_line_api.Store.{Notice}

-- A transactional e-mail, and what delivers one.
pub record Message : Type 0 where
  pub to : Text
  pub subject : Text
  pub html : Text

abbrev pub Sender : Type 0
Sender = Message → Result (Unit {0})

unfoldable pub log_sender : Sender
log_sender m = ok tt

abbrev sent_by_resend : Option (Unit {0}) → Result (Unit {0})
sent_by_resend none = err (wrap "sending email via resend" (signal failure))
sent_by_resend (some _) = ok tt

-- `client` is Emails.SendWithContext of the Resend client; `none` is its error.
unfoldable pub resend_sender :
    (client : (api_key from : Text) → Message → Option (Unit {0})) (api_key from : Text) → Sender
resend_sender client api_key from m = sent_by_resend (client api_key from m)

-- Resend where a key is configured, and the log where not, as cmd/api/main.go chooses.
unfoldable pub email_sender :
    (client : (api_key from : Text) → Message → Option (Unit {0})) → EmailConfig → Sender
unfolding log_sender resend_sender
email_sender client c m =
    if is_empty c.resend_api_key
    then log_sender m
    else resend_sender client c.resend_api_key c.from m

pub record ConfirmationEmailData : Type 0 where
  pub first_name : Text
  pub race_name : Text
  pub date_label : Text
  pub modalidad : Text
  pub dorsal : Text
  pub logo_url : Text

-- `monthsES`
abbrev pub months_es : List Text
months_es =
    codes "enero"
    ∷ codes "febrero"
    ∷ codes "marzo"
    ∷ codes "abril"
    ∷ codes "mayo"
    ∷ codes "junio"
    ∷ codes "julio"
    ∷ codes "agosto"
    ∷ codes "septiembre"
    ∷ codes "octubre"
    ∷ codes "noviembre"
    ∷ codes "diciembre"
    ∷ []

-- The index is in range, since a month is from 1 to 12.
abbrev month_at : ℕ → List Text → Text
month_at i [] = []
month_at zero (m ∷ ms) = m
month_at (suc i) (m ∷ ms) = month_at i ms

-- `spanishDateLabel`
unfoldable pub spanish_date_label : Time → Text
unfolding print_nat print_int
spanish_date_label t =
    print_nat t.date.day
    ++ codes " de "
    ++ month_at (t.date.month - 1) months_es
    ++ codes " de "
    ++ print_int (sub_ℕ t.date.year base_year)

abbrev dash : Text
dash = codes "—"

abbrev dorsal_label : Option ℤ → Text
dorsal_label none = dash
dorsal_label (some d) = print_int d

unfoldable pub email_data : (frontend_base_url : Text) → Notice → ConfirmationEmailData
unfolding spanish_date_label print_int
email_data frontend_base_url n = record {
  first_name = n.person.first_names;
  race_name = n.race.name;
  date_label = spanish_date_label n.race.date;
  modalidad = if is_empty n.registration.modalidad then dash else n.registration.modalidad;
  dorsal = dorsal_label n.registration.dorsal;
  logo_url = frontend_base_url ++ codes "/email/isotype-mark.png";
}

abbrev deliver : Sender → Notice → Option Text → Result (Unit {0})
deliver send n none = err (wrap "render confirmation email" (signal failure))
deliver send n (some html) = send (record {
  to = n.person.email;
  subject = codes "Confirmación de inscripción — " ++ n.race.name;
  html = html;
})

-- `SendConfirmation`
unfoldable pub send_confirmation :
    (render : ConfirmationEmailData → Option Text)
    → Sender
    → (frontend_base_url : Text) → Notice
    → Result (Unit {0})
unfolding email_data
send_confirmation render send frontend_base_url n =
    deliver send n (render (email_data frontend_base_url n))
