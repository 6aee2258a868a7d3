-- ===== src/Permissions.antt =====
-- packages/contracts/src/permissions: the permissions that each role of an organization has.
use specbook.Base.{
  ◌≡◌, refl, sym, ap, ◌∙◌, String, Bool, true, false, some, List, [], ◌∷◌, Memᴰ, any, any_elim, all,
  is_text, if◌then◌else◌, arith,
}
use mathlib.Core.List.Memᴰ
use mathlib.Core.Path.{subst}
use text.Mathlib.TextEquality.{eq_iff}

-- PERMISSIONS
unfoldable pub permissions : List String
permissions =
    "auth:read-self" ∷ "auth:change-password" ∷ "auth:logout" ∷ "org:list" ∷ "org:read"
    ∷ "org:create" ∷ "org:update" ∷ "org:switch" ∷ "org:invite" ∷ "user:list" ∷ "user:read"
    ∷ "user:create" ∷ "user:update" ∷ "user:delete" ∷ "user:create-owner" ∷ "user:promote-owner"
    ∷ "user:remove-owner" ∷ "job:create" ∷ "notification:list" ∷ "notification:read"
    ∷ "notification:update" ∷ "notification:delete" ∷ "settings:read" ∷ "settings:update"
    ∷ "server:shell" ∷ "project:list" ∷ "project:read" ∷ "project:create" ∷ "project:update"
    ∷ "project:delete" ∷ "project:grant-access" ∷ "task:list" ∷ "task:read" ∷ "task:create"
    ∷ "task:update" ∷ "task:delete" ∷ "task:transition" ∷ "task:merge" ∷ "task:comment"
    ∷ "research:read" ∷ "research:create" ∷ "research:update" ∷ "research:accept"
    ∷ "research:delete" ∷ "attachment:create" ∷ "attachment:list" ∷ "attachment:read"
    ∷ "attachment:delete" ∷ []

-- ROLE_PERMISSIONS, by role
unfoldable pub owner_permissions : List String
owner_permissions =
    "auth:read-self" ∷ "auth:change-password" ∷ "auth:logout" ∷ "org:list" ∷ "org:read"
    ∷ "org:create" ∷ "org:update" ∷ "org:switch" ∷ "org:invite" ∷ "user:list" ∷ "user:read"
    ∷ "user:create" ∷ "user:update" ∷ "user:delete" ∷ "user:create-owner" ∷ "user:promote-owner"
    ∷ "user:remove-owner" ∷ "job:create" ∷ "notification:list" ∷ "notification:read"
    ∷ "notification:update" ∷ "notification:delete" ∷ "settings:read" ∷ "settings:update"
    ∷ "server:shell" ∷ "project:list" ∷ "project:read" ∷ "project:create" ∷ "project:update"
    ∷ "project:delete" ∷ "project:grant-access" ∷ "task:list" ∷ "task:read" ∷ "task:create"
    ∷ "task:update" ∷ "task:delete" ∷ "task:transition" ∷ "task:merge" ∷ "task:comment"
    ∷ "research:read" ∷ "research:create" ∷ "research:update" ∷ "research:accept"
    ∷ "research:delete" ∷ "attachment:create" ∷ "attachment:list" ∷ "attachment:read"
    ∷ "attachment:delete" ∷ []

unfoldable pub admin_permissions : List String
admin_permissions =
    "auth:read-self" ∷ "auth:change-password" ∷ "auth:logout" ∷ "org:list" ∷ "org:read"
    ∷ "org:create" ∷ "org:switch" ∷ "org:invite" ∷ "user:list" ∷ "user:read" ∷ "user:create"
    ∷ "user:update" ∷ "user:delete" ∷ "job:create" ∷ "notification:list" ∷ "notification:read"
    ∷ "notification:update" ∷ "notification:delete" ∷ "settings:read" ∷ "settings:update"
    ∷ "project:list" ∷ "project:read" ∷ "project:create" ∷ "project:update" ∷ "project:delete"
    ∷ "project:grant-access" ∷ "task:list" ∷ "task:read" ∷ "task:create" ∷ "task:update"
    ∷ "task:delete" ∷ "task:transition" ∷ "task:merge" ∷ "task:comment" ∷ "research:read"
    ∷ "research:create" ∷ "research:update" ∷ "research:accept" ∷ "research:delete"
    ∷ "attachment:create" ∷ "attachment:list" ∷ "attachment:read" ∷ "attachment:delete" ∷ []

unfoldable pub member_permissions : List String
member_permissions =
    "auth:read-self" ∷ "auth:change-password" ∷ "auth:logout" ∷ "org:list" ∷ "org:read"
    ∷ "org:create" ∷ "org:switch" ∷ "notification:list" ∷ "notification:read"
    ∷ "notification:update" ∷ "notification:delete" ∷ "settings:read" ∷ "project:list"
    ∷ "project:read" ∷ "task:list" ∷ "task:read" ∷ "task:create" ∷ "task:update" ∷ "task:transition"
    ∷ "task:comment" ∷ "research:read" ∷ "research:create" ∷ "research:update" ∷ "research:accept"
    ∷ "attachment:create" ∷ "attachment:list" ∷ "attachment:read" ∷ "attachment:delete" ∷ []

-- `ROLE_PERMISSIONS[role] ?? []`, getPermissionsForRole
unfoldable pub get_permissions_for_role : String → List String
unfolding owner_permissions admin_permissions member_permissions
get_permissions_for_role role =
    if is_text (some role) "OWNER"
    then owner_permissions
    else if is_text (some role) "ADMIN"
    then admin_permissions
    else if is_text (some role) "MEMBER"
    then member_permissions
    else []

-- `list.includes(p)`
abbrev pub lists : List String → String → Bool
lists granted p = any (is_text (some p)) granted

-- hasPermission
unfoldable pub has_permission : String → String → Bool
unfolding get_permissions_for_role
has_permission role p = lists (get_permissions_for_role role) p

-- hasAnyPermission
unfoldable pub has_any_permission : String → List String → Bool
unfolding get_permissions_for_role
has_any_permission role wanted = any (lists (get_permissions_for_role role)) wanted

-- hasAllPermissions
unfoldable pub has_all_permissions : String → List String → Bool
unfolding get_permissions_for_role
has_all_permissions role wanted = all (lists (get_permissions_for_role role)) wanted

all_elim :
    (p : String → Bool) (xs : List String) {a : String} → all p xs ≡ true → Memᴰ a xs → p a ≡ true
all_elim p [] h m = absurd (Memᴰ.not-nil m)
all_elim p (x ∷ xs) h (Memᴰ.head e) = ap p e ∙ ground arith
all_elim p (x ∷ xs) h (Memᴰ.tail m) = all_elim p xs (ground arith) m

-- A list whose every entry another one lists grants no more than that one.
granted_within :
    (fewer more : List String) (p : String)
    → all (lists more) fewer ≡ true
    → lists fewer p ≡ true
    → lists more p ≡ true
granted_within fewer more p covered h =
    let (q, m, same) = any_elim (is_text (some p)) fewer h in
    subst (λ r. lists more r ≡ true) (sym ((eq_iff p q).0 same))
      (all_elim (lists more) fewer covered m)

member_within : all (lists admin_permissions) member_permissions ≡ true
unfolding admin_permissions member_permissions
member_within = refl

admin_within : all (lists owner_permissions) admin_permissions ≡ true
unfolding admin_permissions owner_permissions
admin_within = refl

owner_within : all (lists permissions) owner_permissions ≡ true
unfolding permissions owner_permissions
owner_within = refl

-- What a member may do an admin may do.
pub members_are_admins :
    (p : String) → has_permission "MEMBER" p ≡ true → has_permission "ADMIN" p ≡ true
unfolding has_permission get_permissions_for_role
members_are_admins p = granted_within member_permissions admin_permissions p member_within

-- What an admin may do an owner may do.
pub admins_are_owners :
    (p : String) → has_permission "ADMIN" p ≡ true → has_permission "OWNER" p ≡ true
unfolding has_permission get_permissions_for_role
admins_are_owners p = granted_within admin_permissions owner_permissions p admin_within

-- No role, a known or an unknown one, has a permission outside the catalogue.
pub granted_is_catalogued :
    (role p : String) → has_permission role p ≡ true → lists permissions p ≡ true
unfolding has_permission get_permissions_for_role
granted_is_catalogued role p h =
    by_role (is_text (some role) "OWNER") (is_text (some role) "ADMIN")
      (is_text (some role) "MEMBER") h
  where
    of_owner : lists owner_permissions p ≡ true → lists permissions p ≡ true
    of_owner = granted_within owner_permissions permissions p owner_within

    of_admin : lists admin_permissions p ≡ true → lists permissions p ≡ true
    of_admin h = of_owner (granted_within admin_permissions owner_permissions p admin_within h)

    by_role :
        (o a m : Bool)
        → lists
            (if o
              then owner_permissions
              else if a
              then admin_permissions
              else if m
              then member_permissions
              else [])
            p
          ≡ true
        → lists permissions p ≡ true
    by_role true a m h = of_owner h
    by_role false true m h = of_admin h
    by_role false false true h =
        of_admin (granted_within member_permissions admin_permissions p member_within h)
    by_role false false false h = cc
