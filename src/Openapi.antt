-- ===== src/Openapi.antt =====
-- addons/openapi/models.go, the parts of a document. Pointers to parts that the code fills in before
-- it uses them (Spec, Components, Responses) stand for what they point to, and a nil map is empty.
pub mod Routes
pub mod Reflection
pub mod Typed
pub mod Complete
pub mod Comments
use amaro.Prelude.{Bool, List, [], ◌∷◌, ◌++◌, Option, none, some, Str, str_eq, if◌then◌else◌}
use amaro.Prelude.Assoc.{Assoc}
use amaro.Errors.{Any}

pub record Info : Type 0 where
  pub title : Str
  pub description : Str
  pub version : Str

pub record Server : Type 0 where
  pub url : Str
  pub description : Str

-- The fields of a Schema that hold no schemas. Its type is `kind`, and its Ref `reference`.
pub record Attributes : Type 0 where
  pub kind : Str
  pub format : Str
  pub reference : Str
  pub description : Str
  pub required : List Str
  pub enum : List Any
  pub example : Option Any

mutual
  pub data Schema : Type 0 where
    schema : Attributes → Items → Properties → Schema

  -- a pointer that may be nil
  pub data Items : Type 0 where
    no_items : Items
    items : Schema → Items

  -- a map from the names of properties
  pub data Properties : Type 0 where
    no_properties : Properties
    property : Str → Schema → Properties → Properties

abbrev pub attributes : Schema → Attributes
attributes (schema a _ _) = a

-- Properties[name] = s
unfoldable pub set_property : Str → Schema → Properties → Properties
set_property name s no_properties = property name s no_properties
set_property name s (property other t rest) =
    if str_eq other name then property other s rest else property other t (set_property name s rest)

pub record MediaType : Type 0 where
  pub schema : Option Schema

pub record Parameter : Type 0 where
  pub name : Str
  pub location : Str
  pub description : Str
  pub required : Bool
  pub schema : Option Schema

pub record RequestBody : Type 0 where
  pub description : Str
  pub content : Assoc MediaType
  pub required : Bool

pub record Response : Type 0 where
  pub description : Str
  pub content : Assoc MediaType

pub record Operation : Type 0 where
  pub tags : List Str
  pub summary : Str
  pub description : Str
  pub operation_id : Str
  pub parameters : List Parameter
  pub request_body : Option RequestBody
  pub responses : Assoc Response
  pub security : List (Assoc (List Str))

pub record PathItem : Type 0 where
  pub summary : Str
  pub description : Str
  pub get : Option Operation
  pub put : Option Operation
  pub post : Option Operation
  pub delete : Option Operation
  pub options : Option Operation
  pub head : Option Operation
  pub patch : Option Operation
  pub trace : Option Operation

pub record SecurityScheme : Type 0 where
  pub kind : Str
  pub name : Str
  pub location : Str
  pub scheme : Str
  pub bearer : Str

pub record Components : Type 0 where
  pub schemas : Assoc Schema
  pub security_schemes : Assoc SecurityScheme

pub record OpenApi : Type 0 where
  pub openapi : Str
  pub info : Info
  pub servers : List Server
  pub paths : Assoc PathItem
  pub components : Components

pub record Generator : Type 0 where
  pub spec : OpenApi
