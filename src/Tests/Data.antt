-- ===== src/Tests/Data.antt =====
-- Test data: a race for two runners, a form, and the tables around them.
use go_finish_line_api.Prelude.{◌+◌, Bool, true, none, some, [], ◌∷◌, any, ◌==◌, pos}
use go_finish_line_api.Text.{Text, codes, Platform}
use go_finish_line_api.Civil.{Date, civil, midnight}
use go_finish_line_api.Race.Entity.{Race}
use go_finish_line_api.User.Entity.{User}
use go_finish_line_api.Participant.Values.{male, pending, l}
use go_finish_line_api.Participant.Person.{Participant}
use go_finish_line_api.Participant.Registration.{Registration}
use go_finish_line_api.Participant.Service.{RegisterInput}
use go_finish_line_api.Auth.Token.{RefreshToken}
use go_finish_line_api.Auth.Library.{Library, Comparison, matches, mismatched}
use go_finish_line_api.Auth.Service.{Settings}
use go_finish_line_api.Store.{Db, World}

-- Latin letters only, and an address is what has an at sign.
abbrev pub platform : Platform
platform = record {
  upper_table = λ c. c;
  lower_table = λ c. c;
  is_address = λ t. any (λ c. c == b'@') t;
}

-- 30 July 2026, in the model's count of years.
abbrev pub today : Date
today = civil 12026 7 30

abbrev pub the_race : Race
the_race = record {
  id = 7;
  document_id = codes "carrera";
  name = codes "Carrera";
  date = midnight (civil 12026 9 1);
  capacity = pos 2;
  created_at = midnight today;
  updated_at = midnight today;
}

abbrev pub form : RegisterInput
form = record {
  race_document_id = codes "carrera";
  first_names = codes " Ana ";
  last_names = codes "Rojas";
  email = codes "Ana@example.com";
  phone = codes "+591 700-12345";
  document_id = codes "1234567";
  birth_date = midnight (civil 11990 5 20);
  gender = codes "f";
  referral_source = codes "amigos";
  modalidad = codes "5K";
  shirt_size = codes "m";
}

abbrev pub nameless : RegisterInput
nameless = record form { first_names = codes " " }

abbrev pub unheard : RegisterInput
unheard = record form { referral_source = codes " " }

abbrev pub runner : Participant
runner = record {
  id = 3;
  first_names = codes "Luis";
  last_names = codes "Rojas";
  email = codes "luis@example.com";
  phone = codes "70012345";
  document_id = codes "7654321";
  birth_date = midnight (civil 11990 5 20);
  gender = male;
  created_at = midnight today;
}

abbrev pub waiting_row : Registration
waiting_row = record {
  id = 11;
  participant_id = 3;
  race_id = 7;
  referral_source = codes "amigos";
  modalidad = codes "5K";
  shirt_size = l;
  status = pending;
  dorsal = none;
  created_at = midnight today;
  confirmed_at = none;
}

abbrev pub account_row : User
account_row = record {
  id = 5;
  name = codes "Admin";
  email = codes "admin@example.com";
  password_hash = codes "right password";
  created_at = midnight today;
}

abbrev pub token_row : RefreshToken
token_row = record {
  id = 21;
  user_id = 5;
  family_id = 1;
  token_hash = codes "raw";
  expires_at = midnight (civil 12026 8 30);
  rotated_at = none;
  revoked_at = none;
  created_at = midnight today;
}

-- Hashes are the texts themselves; the passwords are compared by their lengths.
abbrev pub library : Library
library = record {
  sign = λ secret c. some c.subject;
  is_hmac = λ t. true_for t;
  verified = λ secret now t. none;
  print_uuid = λ id. id ∷ [];
  parse_uuid = λ t. none;
  zero_time = midnight (civil 10001 1 1);
  sha256_hex = λ t. t;
  random_text = λ n. some (b'r' ∷ n ∷ []);
  bcrypt = λ n t. some t;
  compare = λ plain hash. compared plain;
}
  where
    true_for : Text → Bool
    true_for t = true

    compared : Text → Comparison
    compared [] = mismatched
    compared (c ∷ t) = matches

abbrev pub settings : Settings
settings = record { jwt = record { secret = codes "secret"; ttl = 900 }; refresh_ttl = 86400 }

abbrev pub tables : Db
tables = record {
  participants = runner ∷ [];
  registrations = waiting_row ∷ [];
  races = the_race ∷ [];
  users = account_row ∷ [];
  refresh_tokens = token_row ∷ [];
}

abbrev pub world : World
world = record {
  db = tables;
  script = [];
  clock = λ n. midnight today;
  ticks = 0;
  ids = λ n. 100 + n;
  drawn = 0;
  outbox = [];
}
