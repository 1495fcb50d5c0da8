-- ===== src/Normalizers.antt =====
-- The normalizers of src/app/normalization/normalizers.py. A record is a row of a CSV file, a table
-- the list of its rows.
pub mod Rows
pub mod Tables
use salesforce_master_servic.Base.{
  Bool, true, false, not, List, [], ◌∷◌, ◌++◌, map, if◌then◌else◌, nat_eq, string_eq, ◌==◌,
  or_default, Dict, lookup, insert, update, keep, String, ◌<>◌, lower, strip,
}
use salesforce_master_servic.Json.{truthy, ◌or_else◌, Json, null, str}

abbrev pub Record : Type 0
Record = Dict Json

abbrev pub TableSet : Type 0
TableSet = Dict (List Record)

-- `value.strip()`, and the default in place of an empty text.
unfoldable pub cleaned_or : Json → Json → Json
cleaned_or (str s) default =
    let stripped = strip s in if stripped == "" then default else str stripped
cleaned_or value default = value

-- `BaseNormalizer.safe_get(record, key)`, the default being `None`.
unfoldable pub safe_get : Record → String → Json
unfolding cleaned_or
safe_get record_in key = cleaned_or (or_default (lookup key record_in) null) null

-- `{key.lower(): self.safe_get(record, key) for key in keys}`, the keys going into a dict in order.
unfoldable pub row_into : Record → List String → Record → Record
row_into record_in [] made = made
row_into record_in (key ∷ keys) made =
    row_into record_in keys (insert (lower key) (safe_get record_in key) made)

unfoldable pub row : Record → List String → Record
row record_in keys = row_into record_in keys []

-- `any(value is not None for value in address.values())`
unfoldable pub has_value : Record → Bool
has_value [] = false
has_value ((key, null) ∷ rest) = has_value rest
has_value ((key, value) ∷ rest) = true

-- `row[key]`, for a key that is one of the row's.
abbrev pub at_key : String → Record → Json
at_key key made = or_default (lookup key made) null

abbrev pub address_keys : String → List String
address_keys prefix =
    (prefix <> "Street")
    ∷ (prefix <> "City")
    ∷ (prefix <> "State")
    ∷ (prefix <> "PostalCode")
    ∷ (prefix <> "Country")
    ∷ []

-- The address of one kind, if any of its fields is there.
unfoldable pub address : Record → Record → String → String → List Record
address record_in account prefix kind =
    let found = row record_in (address_keys prefix) in
    if has_value found
    then update (("account_id", at_key "id" account) ∷ ("address_type", str kind) ∷ []) found ∷ []
    else []

unfoldable pub addresses : Record → Record → List Record
addresses record_in account =
    address record_in account "Billing" "billing" ++ address record_in account "Shipping" "shipping"

unfoldable pub teams : Record → List Record
teams account =
    if truthy (at_key "ownerid" account)
    then (("account_id", at_key "id" account)
        ∷ ("user_id", at_key "ownerid" account)
        ∷ ("role", str "owner")
        ∷ [])
      ∷ []
    else []

unfoldable pub roles : Record → List Record
roles contact =
    if truthy (at_key "accountid" contact)
    then (("contact_id", at_key "id" contact)
        ∷ ("account_id", at_key "accountid" contact)
        ∷ ("role", str "contact")
        ∷ [])
      ∷ []
    else []

-- A row under the name of what it belongs to: `{name: self.safe_get(record, key), **self._row(record, keys)}`.
unfoldable pub child_row : String → String → List String → Record → Record
child_row name key keys record_in =
    update ((name, safe_get record_in key) ∷ []) (row record_in keys)

-- A text of a file is raw here: blanks count.
unfoldable pub is_event : Record → Bool
is_event record_in = truthy (
    or_default (lookup "StartDateTime" record_in) null
    or_else or_default (lookup "startdatetime" record_in) null)

-- `for record in records: list.extend(...)`
unfoldable pub gather : (Record → List Record) → List Record → List Record
gather f [] = []
gather f (r ∷ rest) = f r ++ gather f rest

pub data Normalizer : Type 0 where
  account_normalizer contact_normalizer opportunity_normalizer lead_normalizer : Normalizer
  case_normalizer task_event_normalizer campaign_normalizer : Normalizer
  opportunity_contact_role_normalizer case_comment_normalizer : Normalizer
  campaign_member_normalizer user_normalizer opportunity_line_item_normalizer : Normalizer

-- The fields that a normalizer reads with `_row`.
abbrev pub row_keys : Normalizer → List String
row_keys account_normalizer =
    "Id" ∷ "Name" ∷ "AccountNumber" ∷ "Type" ∷ "Industry" ∷ "Phone" ∷ "Website" ∷ "OwnerId"
    ∷ "ParentId" ∷ "CreatedDate" ∷ "LastModifiedDate" ∷ []
row_keys contact_normalizer =
    "Id" ∷ "AccountId" ∷ "FirstName" ∷ "LastName" ∷ "Name" ∷ "Email" ∷ "Phone" ∷ "MobilePhone"
    ∷ "Title" ∷ "Department" ∷ "OwnerId" ∷ "CreatedDate" ∷ "LastModifiedDate" ∷ []
row_keys opportunity_normalizer =
    "Id" ∷ "AccountId" ∷ "Name" ∷ "StageName" ∷ "Amount" ∷ "CloseDate" ∷ "Probability" ∷ "Type"
    ∷ "LeadSource" ∷ "OwnerId" ∷ "CreatedDate" ∷ "LastModifiedDate" ∷ []
row_keys lead_normalizer =
    "Id" ∷ "FirstName" ∷ "LastName" ∷ "Name" ∷ "Company" ∷ "Title" ∷ "Email" ∷ "Phone"
    ∷ "MobilePhone" ∷ "Status" ∷ "LeadSource" ∷ "Industry" ∷ "Street" ∷ "City" ∷ "State"
    ∷ "PostalCode" ∷ "Country" ∷ "OwnerId" ∷ "CreatedDate" ∷ "LastModifiedDate" ∷ []
row_keys case_normalizer =
    "Id" ∷ "AccountId" ∷ "ContactId" ∷ "CaseNumber" ∷ "Subject" ∷ "Description" ∷ "Status"
    ∷ "Priority" ∷ "Origin" ∷ "Type" ∷ "Reason" ∷ "OwnerId" ∷ "CreatedDate" ∷ "LastModifiedDate"
    ∷ []
row_keys task_event_normalizer =
    "Id" ∷ "WhoId" ∷ "WhatId" ∷ "OwnerId" ∷ "Subject" ∷ "Description" ∷ "Status" ∷ "Priority"
    ∷ "ActivityDate" ∷ "CompletedDateTime" ∷ "StartDateTime" ∷ "EndDateTime" ∷ "IsAllDayEvent"
    ∷ "Location" ∷ "CreatedDate" ∷ "LastModifiedDate" ∷ []
row_keys campaign_normalizer =
    "Id" ∷ "Name" ∷ "Type" ∷ "Status" ∷ "StartDate" ∷ "EndDate" ∷ "IsActive" ∷ "OwnerId"
    ∷ "CreatedDate" ∷ "LastModifiedDate" ∷ []
row_keys opportunity_contact_role_normalizer = "Id" ∷ "ContactId" ∷ "Role" ∷ "IsPrimary" ∷ []
row_keys case_comment_normalizer = "Id" ∷ "CommentBody" ∷ "CreatedDate" ∷ "CreatedById" ∷ []
row_keys campaign_member_normalizer =
    "Id" ∷ "LeadId" ∷ "ContactId" ∷ "Status" ∷ "HasResponded" ∷ "FirstRespondedDate" ∷ []
row_keys user_normalizer =
    "Id" ∷ "Username" ∷ "FirstName" ∷ "LastName" ∷ "Name" ∷ "Email" ∷ "IsActive" ∷ "UserRoleId"
    ∷ "ProfileId" ∷ "Department" ∷ "Title" ∷ "CreatedDate" ∷ "LastModifiedDate" ∷ []
row_keys opportunity_line_item_normalizer =
    "Id" ∷ "Product2Id" ∷ "ProductCode" ∷ "Name" ∷ "Quantity" ∷ "UnitPrice" ∷ "TotalPrice"
    ∷ "ServiceDate" ∷ []

-- `output_tables`
abbrev pub output_tables : Normalizer → List String
output_tables account_normalizer = "accounts" ∷ "account_addresses" ∷ "account_teams" ∷ []
output_tables contact_normalizer = "contacts" ∷ "contact_roles" ∷ []
output_tables opportunity_normalizer = "opportunities" ∷ []
output_tables lead_normalizer = "leads" ∷ []
output_tables case_normalizer = "cases" ∷ []
output_tables task_event_normalizer = "tasks" ∷ "events" ∷ []
output_tables campaign_normalizer = "campaigns" ∷ []
output_tables opportunity_contact_role_normalizer = "opportunity_contact_roles" ∷ []
output_tables case_comment_normalizer = "case_comments" ∷ []
output_tables campaign_member_normalizer = "campaign_members" ∷ []
output_tables user_normalizer = "users" ∷ []
output_tables opportunity_line_item_normalizer = "opportunity_line_items" ∷ []

-- The row of a record in the main table of a normalizer.
unfoldable pub main_row : Normalizer → Record → Record
main_row opportunity_contact_role_normalizer =
    child_row "opportunity_id" "OpportunityId" (row_keys opportunity_contact_role_normalizer)
main_row case_comment_normalizer = child_row "case_id" "ParentId" (row_keys case_comment_normalizer)
main_row campaign_member_normalizer =
    child_row "campaign_id" "CampaignId" (row_keys campaign_member_normalizer)
main_row opportunity_line_item_normalizer =
    child_row "opportunity_id" "OpportunityId" (row_keys opportunity_line_item_normalizer)
main_row n = λ (r : Record). row r (row_keys n)

-- `normalize`, with the tables in the order in which the dict is written.
unfoldable pub normalize : Normalizer → List Record → TableSet
normalize account_normalizer records =
    let made = main_row account_normalizer in
    ("accounts", map made records)
    ∷ ("account_addresses", gather (λ r. addresses r (made r)) records)
    ∷ ("account_teams", gather (λ r. teams (made r)) records)
    ∷ []
normalize contact_normalizer records =
    let made = main_row contact_normalizer in
    ("contacts", map made records) ∷ ("contact_roles", gather (λ r. roles (made r)) records) ∷ []
normalize task_event_normalizer records =
    let made = main_row task_event_normalizer in
    ("tasks", map made (keep (λ r. not (is_event r)) records))
    ∷ ("events", map made (keep is_event records))
    ∷ []
normalize opportunity_normalizer records =
    ("opportunities", map (main_row opportunity_normalizer) records) ∷ []
normalize lead_normalizer records = ("leads", map (main_row lead_normalizer) records) ∷ []
normalize case_normalizer records = ("cases", map (main_row case_normalizer) records) ∷ []
normalize campaign_normalizer records =
    ("campaigns", map (main_row campaign_normalizer) records) ∷ []
normalize opportunity_contact_role_normalizer records =
    ("opportunity_contact_roles", map (main_row opportunity_contact_role_normalizer) records) ∷ []
normalize case_comment_normalizer records =
    ("case_comments", map (main_row case_comment_normalizer) records) ∷ []
normalize campaign_member_normalizer records =
    ("campaign_members", map (main_row campaign_member_normalizer) records) ∷ []
normalize user_normalizer records = ("users", map (main_row user_normalizer) records) ∷ []
normalize opportunity_line_item_normalizer records =
    ("opportunity_line_items", map (main_row opportunity_line_item_normalizer) records) ∷ []

-- `NORMALIZER_REGISTRY`
abbrev pub normalizer_registry : Dict Normalizer
normalizer_registry =
    ("Account", account_normalizer)
    ∷ ("Contact", contact_normalizer)
    ∷ ("Opportunity", opportunity_normalizer)
    ∷ ("OpportunityLineItem", opportunity_line_item_normalizer)
    ∷ ("OpportunityContactRole", opportunity_contact_role_normalizer)
    ∷ ("Lead", lead_normalizer)
    ∷ ("Case", case_normalizer)
    ∷ ("CaseComment", case_comment_normalizer)
    ∷ ("Task", task_event_normalizer)
    ∷ ("Event", task_event_normalizer)
    ∷ ("Campaign", campaign_normalizer)
    ∷ ("CampaignMember", campaign_member_normalizer)
    ∷ ("User", user_normalizer)
    ∷ []
