-- ===== src/Admin/Export.antt =====
-- admin/admin.service.ts: `exportUsers`. The texts of a uuid, of a date (`toISOString`) and of the
-- column `updatedAt` of a user are parameters.
use Prim.Native.Char.{code}
use drawback_backend.Prelude.{
  ℕ, String, Bool, true, false, List, [], ◌∷◌, Option, none, some, ◌==◌, ◌||◌, map, select,
  sort_desc, if◌then◌else◌,
}
use drawback_backend.Schema.Enums.{UserMode, UserRole}
use drawback_backend.Schema.Entities.{User}
use drawback_backend.World.{Exec, gets}
use drawback_backend.Admin.{UserFilter, matches}

-- `a + b`
unfoldable pub append : String → String → String
append String.[] t = t
append (String.◌∷◌ c s) t = String.◌∷◌ c (append s t)

-- `field.includes(c)`
unfoldable pub includes : ℕ → String → Bool
includes c String.[] = false
includes c (String.◌∷◌ d s) = code d == c || includes c s

-- `replace(/"/g, '""')`: a quote is written twice.
unfoldable pub double_quotes : String → String
double_quotes String.[] = ""
double_quotes (String.◌∷◌ d s) =
    let rest = double_quotes s in
    if code d == code "\"" then String.◌∷◌ d (String.◌∷◌ d rest) else String.◌∷◌ d rest

unfoldable pub must_quote : String → Bool
must_quote field =
    includes (code ",") field || includes (code "\"") field || includes (code "\n") field

unfoldable pub escape_csv_field : String → String
escape_csv_field field =
    if must_quote field then append "\"" (append (double_quotes field) "\"") else field

-- `join`
unfoldable pub join : String → List String → String
join sep [] = ""
join sep (x ∷ []) = x
join sep (x ∷ y ∷ ys) = append x (append sep (join sep (y ∷ ys)))

abbrev pub headers : List String
headers =
    "id" ∷ "email" ∷ "displayName" ∷ "mode" ∷ "role" ∷ "isActivated" ∷ "isBlocked" ∷ "blockedAt"
    ∷ "blockedReason" ∷ "appearInSearches" ∷ "appearInDiscoveryGame" ∷ "hasDiscoveryAccess"
    ∷ "createdAt" ∷ "updatedAt" ∷ []

abbrev pub text_of_bool : Bool → String
text_of_bool true = "true"
text_of_bool false = "false"

abbrev pub text_of_mode : UserMode → String
text_of_mode UserMode.public = "public"
text_of_mode UserMode.private = "private"

abbrev pub text_of_role : UserRole → String
text_of_role UserRole.user = "user"
text_of_role UserRole.admin = "admin"

abbrev pub or_nothing : Option String → String
or_nothing none = ""
or_nothing (some s) = s

abbrev pub text_of_date : (ℕ → String) → Option ℕ → String
text_of_date iso none = ""
text_of_date iso (some t) = iso t

-- The texts that the export shows and the model does not have.
pub record Texts : Type 0 where
  pub uuid : ℕ → String
  pub iso : ℕ → String
  pub updated_at : User → String

unfoldable pub row_of : Texts → User → List String
row_of texts u =
    texts.uuid u.id
    ∷ u.email
    ∷ u.display_name
    ∷ text_of_mode u.mode
    ∷ text_of_role u.role
    ∷ text_of_bool u.is_activated
    ∷ text_of_bool u.is_blocked
    ∷ text_of_date texts.iso u.blocked_at
    ∷ or_nothing u.blocked_reason
    ∷ text_of_bool u.appear_in_searches
    ∷ text_of_bool u.appear_in_discovery_game
    ∷ text_of_bool u.has_discovery_access
    ∷ texts.iso u.created_at
    ∷ texts.updated_at u
    ∷ []

unfoldable pub csv_line : List String → String
csv_line row = join "," (map escape_csv_field row)

unfoldable pub csv_of : List (List String) → String
csv_of rows = join "\n" (join "," headers ∷ map csv_line rows)

unfoldable pub export_users : Texts → UserFilter → Exec String
export_users texts f = gets (λ w.
    csv_of (map (row_of texts) (sort_desc (λ u. u.created_at) (select (matches f) w.db.users))))
