-- ===== src/Models/Site.antt =====
-- models/profile.py, models/portfolio_section.py, models/chatfolio.py and models/domain.py: the tables
-- of public pages, with the columns that the services of pages use.
use chatfolio_backend.Prelude.{ℕ, Bool, Option, List, String}
use chatfolio_backend.Time.Calendar.{DateTime}
use chatfolio_backend.World.{World}

pub data ProfileStatus : Type 0 where
  draft approved : ProfileStatus

pub record CandidateProfile : Type 0 where
  pub id : ℕ
  pub user_id : ℕ
  pub full_name : Option String
  pub status : ProfileStatus

pub data SectionType : Type 0 where
  intro summary : SectionType

pub data SectionStatus : Type 0 where
  draft approved : SectionStatus

pub record PortfolioSection : Type 0 where
  pub profile_id : ℕ
  pub section_type : SectionType
  pub status : SectionStatus

pub record PublicChatfolio : Type 0 where
  pub id : ℕ
  pub profile_id : ℕ
  pub slug : String
  pub previous_slug : Option String
  pub is_published : Bool
  pub published_at : Option DateTime
  pub contact_cta_config : List (String × String)
  pub cv_downloadable : Bool

pub record ChatfolioLink : Type 0 where
  pub id : ℕ
  pub chatfolio_id : ℕ
  pub slug : String
  pub is_active : Bool

pub record PublicDomain : Type 0 where
  pub id : ℕ
  pub chatfolio_id : ℕ
  pub domain : String
  pub is_verified : Bool
  pub verification_token : String

-- These tables beside those of the billing. Links and domains stand in the order of their creation.
pub record Site : Type 0 where
  pub world : World
  pub profiles : List CandidateProfile
  pub sections : List PortfolioSection
  pub chatfolios : List PublicChatfolio
  pub links : List ChatfolioLink
  pub domains : List PublicDomain
  pub next_id : ℕ
